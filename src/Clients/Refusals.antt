-- ===== src/Clients/Refusals.antt =====
-- How a daemon's refusal reaches the controller (api/errors.py, clients/filesets.py).

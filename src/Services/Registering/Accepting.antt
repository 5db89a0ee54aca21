-- ===== src/Services/Registering/Accepting.antt =====
-- Which announcements the controller accepts, and what it then knows (services/daemons.py).
use stashd.Prelude.{
  ℕ, Text, same, same_iff, ◌≡◌, ◌≢◌, ◌↔◌, inl, inr, Option-cases, refl, true, not, ◌&&◌, List, [],
  ◌∷◌, All, Option, none, some, if◌then◌else◌, arith,
}
use stashd.Domain.Errors.{Result, ok, err, is_err}
use stashd.Config
use stashd.Config.{ClusterConfig, Storage, storage, daemon}
use stashd.Models.{Daemon, Db}
use stashd.Session.{Exec, ◌>>=◌, ◌>>◌, pure, lift, writes, commit, after, outcome}
use stashd.Session.Leads.{Leads, Leads-bind, Leads-any, Leads-pure}
use stashd.Session.Rows.{constraints_hold}
use stashd.Services.Registering.{
  Registration, check_storage, check_storages, after_check, known_daemon, get_daemon, put_daemon,
  announced, register,
}

abbrev pub Serves : Text → Option Storage → Type 0
Serves daemon_id none = ⊥
Serves daemon_id (some s) = s.daemon ≡ daemon_id

-- The config has the storage and gives it to the daemon.
abbrev pub Assigned : ClusterConfig → Text → Text → Type 0
Assigned cluster daemon_id storage_id = Serves daemon_id (storage cluster storage_id)

check_storage_iff :
    (cluster : ClusterConfig) (daemon_id storage_id : Text)
    → (check_storage cluster daemon_id storage_id ≡ ok tt) ↔ Assigned cluster daemon_id storage_id
unfolding check_storage
check_storage_iff cluster daemon_id storage_id = elim (Option-cases (storage cluster storage_id)) [
  | inl e ↦ rw e (λ h. ground arith, λ h. absurd h)
  | inr (s, e) ↦
      rw e (let i = same_iff s.daemon daemon_id in (λ h. ground arith, λ h. ground arith))
]

both :
    {P Q : Type 0} (r t : Result (Unit {0}))
    → ((r ≡ ok tt) ↔ P)
    → ((t ≡ ok tt) ↔ Q)
    → (after_check r t ≡ ok tt) ↔ (P × Q)
both (ok tt) t i k = (λ h. (i.0 refl, k.0 h), λ h. k.1 h.1)
both (err e) t i k = (λ h. (i.0 h, absurd (ground arith)), λ h. i.1 h.0)

check_storages_iff :
    (cluster : ClusterConfig) (daemon_id : Text) (storages : List Text)
    → (check_storages cluster daemon_id storages ≡ ok tt)
      ↔ All (Assigned cluster daemon_id) storages
unfolding check_storages
check_storages_iff cluster daemon_id [] = (λ h. tt, λ h. refl)
check_storages_iff cluster daemon_id (s ∷ ss) =
    both (check_storage cluster daemon_id s) (check_storages cluster daemon_id ss)
      (check_storage_iff cluster daemon_id s) (check_storages_iff cluster daemon_id ss)

pub get_daemon-put_daemon :
    (j : Text) (d : Daemon) (rows : List Daemon)
    → get_daemon j (put_daemon d rows) ≡ (if same d.id j then some d else get_daemon j rows)
unfolding put_daemon
get_daemon-put_daemon j d [] = refl
get_daemon-put_daemon j d (r ∷ rs) =
    ground
      (arith, same_iff r.id d.id, same_iff d.id j, same_iff r.id j, get_daemon-put_daemon j d rs)

-- The checks of a registration, before anything is written.
abbrev accepts : ClusterConfig → Registration → Result (Unit {0})
accepts cluster a =
    after_check (known_daemon a.daemon_id (daemon cluster a.daemon_id))
      (check_storages cluster a.daemon_id a.storages)

module _ (cluster : ClusterConfig) (now : ℕ) (a : Registration) (db : Db) where
  abbrev registered : Db
  registered = record db { daemons = put_daemon (announced cluster now a) db.daemons }

  -- The answer, and the rows that are left.
  abbrev answer : Result (Unit {0}) → Result Daemon
  answer (ok u) = ok (announced cluster now a)
  answer (err e) = err e

  abbrev left : Result (Unit {0}) → Db
  left (ok u) = registered
  left (err e) = db

  checked_run :
      (r t : Result (Unit {0}))
      → constraints_hold db ≡ true
      → let m : Exec Daemon =
          lift r
          >> (lift t
              >> (writes
                    (λ d. record d { daemons = put_daemon (announced cluster now a) d.daemons })
                  >> (commit >> pure (announced cluster now a)))) in
        (outcome m db ≡ answer (after_check r t)) × (after m db ≡ left (after_check r t))
  unfolding outcome after ◌>>=◌ lift writes commit pure constraints_hold
  checked_run (ok u) (ok v) sound = rw sound (refl, refl)
  checked_run (ok u) (err e) sound = (refl, refl)
  checked_run (err e) t sound = (refl, refl)

  register_run :
      constraints_hold db ≡ true
      → (outcome (register cluster now a) db ≡ answer (accepts cluster a))
        × (after (register cluster now a) db ≡ left (accepts cluster a))
  unfolding register
  register_run sound = checked_run _ _ sound

  known_iff : (o : Option Config.Daemon) → (known_daemon a.daemon_id o ≡ ok tt) ↔ (o ≢ none)
  known_iff none = (λ h. absurd (ground arith), λ h. absurd (h refl))
  known_iff (some d) = (λ h. λ e. ground arith, λ h. refl)

  answer_iff : (r : Result (Unit {0})) → (answer r ≡ ok (announced cluster now a)) ↔ (r ≡ ok tt)
  answer_iff (ok tt) = (λ h. refl, λ h. refl)
  answer_iff (err e) = (λ h. absurd (ground arith), λ h. absurd (ground arith))

  left-get_daemon :
      (j : Text) (r : Result (Unit {0}))
      → get_daemon j (left r).daemons ≡ (
          if not (is_err (answer r)) && same a.daemon_id j
          then some (announced cluster now a)
          else get_daemon j db.daemons)
  left-get_daemon j (ok u) = get_daemon-put_daemon j (announced cluster now a) db.daemons
  left-get_daemon j (err e) = refl

  -- Where the tables' constraints hold, an announcement is accepted exactly when the config has the
  -- daemon and gives it every storage that it names. The row of the daemon is then what it
  -- announced, seen now; the rows of the other daemons, and all rows after a refusal, are what they
  -- were.
  pub register-Recorded :
      (j : Text)
      → constraints_hold db ≡ true
      → ((outcome (register cluster now a) db ≡ ok (announced cluster now a))
          ↔ ((daemon cluster a.daemon_id ≢ none) × All (Assigned cluster a.daemon_id) a.storages))
        × (get_daemon j (after (register cluster now a) db).daemons ≡ (
            if not (is_err (outcome (register cluster now a) db)) && same a.daemon_id j
            then some (announced cluster now a)
            else get_daemon j db.daemons))
  register-Recorded j sound =
      let (replied, kept) = register_run sound in
      let accepted =
        both _ _ (known_iff (daemon cluster a.daemon_id))
          (check_storages_iff cluster a.daemon_id a.storages) in
      rw (replied, kept)
        ((
          (λ h. accepted.0 ((answer_iff _).0 h), λ h. (answer_iff _).1 (accepted.1 h)),
          left-get_daemon j (accepts cluster a),
        ))

-- An announcement that is accepted is answered by the row that it made.
pub register-announced :
    (cluster : ClusterConfig) (now : ℕ) (a : Registration)
    → Leads (λ _. Unit {0}) (register cluster now a) (λ d _. d ≡ announced cluster now a)
unfolding register
register-announced cluster now a = Leads-bind _ _ _ (Leads-any _) λ _.
    Leads-bind _ _ _ (Leads-any _) λ _.
      Leads-bind _ _ _ (Leads-any _)
        λ _. Leads-bind _ _ _ (Leads-any _) λ _. Leads-pure _ _ λ s u. refl

-- ===== src/Domain/References/Paths.antt =====
-- Storage-relative paths of domain/references.py: what an accepted path is made of.
use stashd.Prelude.{
  ℕ, Text, ◌≡◌, refl, ap, ◌∙◌, ◌⊎◌, inl, inr, true, false, Bool-cases, not, List, [], ◌∷◌, ◌++◌,
  any, every, All, ◌==◌, arith,
}
use stashd.Domain.Errors.{ok}
use stashd.Domain.References.{
  starts_with_slash, strip_cons, or_root, rstrip_slashes, strip_path, push_first, split_slash,
  is_special, segments_of, validate_storage_path,
}

-- A plain segment: not empty, not `.` or `..`, and with no slash.
pub record Plain (segment : Text) : Type 0 where
  pub not_special : is_special segment ≡ false
  pub no_slash : every (λ c. not (c == b'/')) segment ≡ true

-- A slash before each segment.
pub path_of : List Text → Text
path_of [] = []
path_of (s ∷ ss) = b'/' ∷ (s ++ path_of ss)

strip_cons_idem :
    (c : ℕ) (u : Text) → rstrip_slashes u ≡ u → rstrip_slashes (strip_cons c u) ≡ strip_cons c u
unfolding rstrip_slashes
strip_cons_idem c [] h = ground arith
strip_cons_idem c (d ∷ u) h = ap (strip_cons c) h

rstrip_idem : (t : Text) → rstrip_slashes (rstrip_slashes t) ≡ rstrip_slashes t
unfolding rstrip_slashes
rstrip_idem [] = refl
rstrip_idem (c ∷ t) = strip_cons_idem c (rstrip_slashes t) (rstrip_idem t)

or_root_idem : (u : Text) → rstrip_slashes u ≡ u → strip_path (or_root u) ≡ or_root u
unfolding strip_path rstrip_slashes
or_root_idem [] h = refl
or_root_idem (c ∷ u) h = ap or_root h

strip_idem : (t : Text) → strip_path (strip_path t) ≡ strip_path t
unfolding strip_path
strip_idem t = unfold strip_path in or_root_idem (rstrip_slashes t) (rstrip_idem t)

or_root-starts :
    (c : ℕ) (u : Text) → (c == b'/') ≡ true → starts_with_slash (or_root (strip_cons c u)) ≡ true
or_root-starts c [] h = ground arith
or_root-starts c (d ∷ u) h = h

pub strip-starts : (t : Text) → starts_with_slash t ≡ true → starts_with_slash (strip_path t) ≡ true
unfolding strip_path rstrip_slashes
strip-starts [] h = refl
strip-starts (c ∷ t) h = or_root-starts c (rstrip_slashes t) h

path_of-push :
    (c : ℕ) (ss : List Text) (t : Text)
    → path_of ss ≡ b'/' ∷ t
    → path_of (push_first c ss) ≡ b'/' ∷ c ∷ t
unfolding path_of
path_of-push c [] t h = absurd (ground arith)
path_of-push c (s ∷ ss) t h = ground arith

-- The pieces of a split put together again, with a slash before each.
path_of-split : (t : Text) → path_of (split_slash t) ≡ b'/' ∷ t
unfolding path_of split_slash
path_of-split [] = refl
path_of-split (c ∷ t) = elim (Bool-cases (c == b'/')) [
  | inl e ↦ rw e (ground (arith, path_of-split t))
  | inr e ↦ rw e (path_of-push c (split_slash t) t (path_of-split t))
]

abbrev NoSlash : Text → Type 0
NoSlash s = every (λ c. not (c == b'/')) s ≡ true

NoSlash-push :
    (c : ℕ) (ss : List Text) → (c == b'/') ≡ false → All NoSlash ss → All NoSlash (push_first c ss)
NoSlash-push c [] e h = (rw e, tt)
NoSlash-push c (s ∷ ss) e h = (rw e h.0, h.1)

NoSlash-split : (t : Text) → All NoSlash (split_slash t)
unfolding split_slash
NoSlash-split [] = (refl, tt)
NoSlash-split (c ∷ t) = elim (Bool-cases (c == b'/')) [
  | inl e ↦ rw e (refl, NoSlash-split t)
  | inr e ↦ rw e (NoSlash-push c (split_slash t) e (NoSlash-split t))
]

Plain-All : (ss : List Text) → All NoSlash ss → any is_special ss ≡ false → All Plain ss
Plain-All [] h e = tt
Plain-All (s ∷ ss) h e =
    (record { not_special = ground arith; no_slash = h.0 }, Plain-All ss h.1 (ground arith))

-- A path that starts with a slash is the root, or the path of its segments.
pub segments-path_of :
    (p : Text)
    → starts_with_slash p ≡ true
    → any is_special (segments_of p) ≡ false
    → All Plain (segments_of p) × ((p ≡ b'/' ∷ []) ⊎ (p ≡ path_of (segments_of p)))
unfolding segments_of
segments-path_of [] h e = cc
segments-path_of (c ∷ []) h e = rw h (tt, inl (ground arith))
segments-path_of (c ∷ d ∷ t) h e =
    let below : any is_special (split_slash (d ∷ t)) ≡ false = rw h at e in
    rw h (
      Plain-All (split_slash (d ∷ t)) (NoSlash-split (d ∷ t)) below,
      inr (ground (arith, path_of-split (d ∷ t))),
    )

accepted :
    (storage path p : Text)
    → validate_storage_path storage path ≡ ok p
    → (starts_with_slash path ≡ true)
      × (p ≡ strip_path path)
      × (any is_special (segments_of (strip_path path)) ≡ false)
unfolding validate_storage_path
accepted storage path p h = ground arith

accepts :
    (storage path : Text)
    → starts_with_slash path ≡ true
    → any is_special (segments_of (strip_path path)) ≡ false
    → validate_storage_path storage path ≡ ok (strip_path path)
unfolding validate_storage_path
accepts storage path h e = ground arith

pub record Accepted (storage path p : Text) : Type 0 where
  pub plain : All Plain (segments_of p)
  pub shape : (p ≡ b'/' ∷ []) ⊎ (p ≡ path_of (segments_of p))
  pub starts : starts_with_slash p ≡ true
  pub stable : validate_storage_path storage p ≡ ok p

-- A path that is accepted is the root, or plain segments with a slash before each: none is empty,
-- `.` or `..`. Checking it again, as the daemon does, accepts it unchanged.
pub validate_storage_path-Accepted :
    (storage path p : Text) → validate_storage_path storage path ≡ ok p → Accepted storage path p
validate_storage_path-Accepted storage path p h =
    let (starts, e, plain) = accepted storage path p h in
    let starts' = strip-starts path starts in
    let (all, shape) = segments-path_of (strip_path path) starts' plain in
    rw e (record {
      plain = all;
      shape = shape;
      starts = starts';
      stable =
          accepts storage (strip_path path) starts' (rw (strip_idem path) plain)
          ∙ ap ok (strip_idem path);
    })

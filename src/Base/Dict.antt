-- ===== src/Base/Dict.antt =====
-- std::map and std::unordered_map keyed by texts: an association list.
use routine_linux_edition.Base.{
  ◌≡◌, refl, Bool, true, false, List, [], ◌∷◌, Option, none, some, arith, if◌then◌else◌, inl, inr,
  Option-cases, all,
}
use routine_linux_edition.Base.Bytes.{Bytes, bytes_eq, bytes_eq_iff, bytes_eq_self}

abbrev pub Dict {ℓ} : Type ℓ → Type ℓ
Dict V = List (Bytes × V)

module _ {ℓ} {V : Type ℓ} where
  -- find(k)
  unfoldable pub lookup : Bytes → Dict V → Option V
  lookup k [] = none
  lookup k ((j, v) ∷ d) = if bytes_eq k j then some v else lookup k d

  -- d[k] = v
  unfoldable pub insert : Bytes → V → Dict V → Dict V
  insert k v [] = (k, v) ∷ []
  insert k v ((j, w) ∷ d) = if bytes_eq k j then (k, v) ∷ d else (j, w) ∷ insert k v d

  -- d.erase(k)
  unfoldable pub erase : Bytes → Dict V → Dict V
  erase k [] = []
  erase k ((j, w) ∷ d) = let rest = erase k d in if bytes_eq k j then rest else (j, w) ∷ rest

  abbrev pub value_or : V → Option V → V
  value_or default none = default
  value_or default (some v) = v

  abbrev pub is_none : Option V → Bool
  is_none none = true
  is_none (some _) = false

  -- The value that `d[k]` refers to: a missing key is entered with the default value.
  abbrev pub at : V → Bytes → Dict V → V
  at default k d = value_or default (lookup k d)

  -- `d[k]` as a statement: a missing key is entered with the default value.
  unfoldable pub ensure : V → Bytes → Dict V → Dict V
  ensure default k d = elim (lookup k d) [ none ↦ insert k default d | some _ ↦ d ]

  -- What the source does to undo a change at a key: the new entry goes, an old one is put back.
  unfoldable pub restore : Bool → Bytes → V → Dict V → Dict V
  restore is_new k before d = if is_new then erase k d else insert k before d

  -- Laws in the form of a test: no side conditions.
  pub lookup-insert :
      (j k : Bytes) (v : V) (d : Dict V)
      → lookup j (insert k v d) ≡ (if bytes_eq j k then some v else lookup j d)
  unfolding lookup insert
  lookup-insert j k v [] = refl
  lookup-insert j k v ((i, w) ∷ d) =
      ground (arith, bytes_eq_iff j k, bytes_eq_iff k i, bytes_eq_iff j i, lookup-insert j k v d)

  pub lookup-erase :
      (j k : Bytes) (d : Dict V)
      → lookup j (erase k d) ≡ (if bytes_eq j k then none else lookup j d)
  unfolding lookup erase
  lookup-erase j k [] = ground arith
  lookup-erase j k ((i, w) ∷ d) =
      ground (arith, bytes_eq_iff j k, bytes_eq_iff k i, bytes_eq_iff j i, lookup-erase j k d)

  pub lookup-insert_self : (k : Bytes) (v : V) (d : Dict V) → lookup k (insert k v d) ≡ some v
  lookup-insert_self k v d = simp (lookup-insert, bytes_eq_self)

  pub lookup-erase_self : (k : Bytes) (d : Dict V) → lookup k (erase k d) ≡ none
  lookup-erase_self k d = simp (lookup-erase, bytes_eq_self)

  pub at-ensure :
      (default : V) (j k : Bytes) (d : Dict V) → at default j (ensure default k d) ≡ at default j d
  unfolding ensure
  at-ensure default j k d = elim (Option-cases (lookup k d)) [
    | inl e ↦ rw (e, ensure) (rw lookup-insert (ground (arith, bytes_eq_iff j k)))
    | inr (v, e) ↦ rw (e, ensure) refl
  ]

  pub lookup-ensure :
      (default : V) (j k : Bytes) (d : Dict V)
      → lookup j (ensure default k d) ≡ (if bytes_eq j k then some (at default k d) else lookup j d)
  unfolding ensure
  lookup-ensure default j k d = elim (Option-cases (lookup k d)) [
    | inl e ↦ rw (e, ensure) (lookup-insert j k default d)
    | inr (v, e) ↦ rw (e, ensure) (ground (arith, bytes_eq_iff j k))
  ]

  pub lookup-erase_if :
      (b : Bool) (j k : Bytes) (d : Dict V)
      → lookup j (if b then erase k d else d)
        ≡ (if bytes_eq j k then (if b then none else lookup j d) else lookup j d)
  lookup-erase_if true j k d = lookup-erase j k d
  lookup-erase_if false j k d = ground arith

  pub lookup-restore_if :
      (b : Bool) (j k : Bytes) (v : V) (d : Dict V)
      → lookup j (restore b k v d)
        ≡ (if bytes_eq j k then (if b then none else some v) else lookup j d)
  unfolding restore
  lookup-restore_if true j k v d = lookup-erase j k d
  lookup-restore_if false j k v d = lookup-insert j k v d

  -- Undoing gives back every lookup.
  pub lookup-restore :
      (j k : Bytes) (default v : V) (d : Dict V)
      → lookup j (restore (is_none (lookup k d)) k (at default k d) (insert k v d)) ≡ lookup j d
  unfolding restore
  lookup-restore j k default v d = elim (Option-cases (lookup k d)) [
    | inl e ↦
        rw (e, restore) (simp (lookup-erase, lookup-insert) (ground (arith, bytes_eq_iff j k)))
    | inr (w, e) ↦ rw (e, restore) (simp lookup-insert (ground (arith, bytes_eq_iff j k)))
  ]

pub ruleset dict_laws =
    (lookup-insert, lookup-ensure, lookup-erase_if, lookup-restore_if, bytes_eq_self)

-- What is there is found, and is not entered again.
pub at-known :
    {V : Type 0} (default v : V) (k : Bytes) (d : Dict V) → lookup k d ≡ some v → at default k d ≡ v
at-known default v k d e = rw e

pub ensure-known :
    {V : Type 0} (default v : V) (k : Bytes) (d : Dict V)
    → lookup k d ≡ some v
    → ensure default k d ≡ d
unfolding ensure
ensure-known default v k d e = rw (e, ensure)

-- A test on all entries.
pub all-insert :
    {V : Type 0} (test : Bytes × V → Bool) (k : Bytes) (v : V) (d : Dict V)
    → test (k, v) ≡ true
    → all test d ≡ true
    → all test (insert k v d) ≡ true
unfolding insert
all-insert test k v [] h a = ground arith
all-insert test k v ((j, w) ∷ d) h a = ground (arith, all-insert test k v d)

pub all-lookup :
    {V : Type 0} (test : Bytes × V → Bool) (k : Bytes) (v : V) (d : Dict V)
    → all test d ≡ true
    → lookup k d ≡ some v
    → test (k, v) ≡ true
unfolding lookup
all-lookup test k v [] a e = cc
all-lookup test k v ((j, w) ∷ d) a e = ground (arith, bytes_eq_iff k j, all-lookup test k v d)

pub at-insert_self :
    {V : Type 0} (default v : V) (k : Bytes) (d : Dict V) → at default k (insert k v d) ≡ v
at-insert_self default v k d = rw (lookup-insert_self k v d) refl

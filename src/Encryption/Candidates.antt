-- ===== src/Encryption/Candidates.antt =====
-- The candidate keys of an event across a change of the active key.
use idm_mw.Prelude.{
  String, ◌==◌, ◌≡◌, refl, eq_iff, eq_refl, Bool, true, false, not, some, List, [], ◌∷◌, ◌++◌, map,
  lookup, includes, keep, inl, inr, Bool-cases, if◌then◌else◌, arith,
}
use idm_mw.Effects.{ok}
use idm_mw.Effects.Results.{Result-cases}
use idm_mw.Core.Idempotency.{first}
use idm_mw.Encryption.Keyring.{
  Node, Buffer, Keyring, Settings, is_idempotency_hmac_enabled, active_key_id, keyring, hmac_key,
  idempotency_keys,
}

abbrev is_active : String → String × Buffer → Bool
is_active id item = item.0 == id

abbrev is_other : String → String × Buffer → Bool
is_other id item = not (item.0 == id)

either : (b : Bool) → (if b then true else true) ≡ true
either true = refl
either false = refl

first_active :
    (active : String) (key : Buffer) (keys : Keyring)
    → lookup active keys ≡ some key
    → (rest : Keyring) × (keep (is_active active) keys ≡ (active, key) ∷ rest)
first_active active key [] h = absurd (cc h)
first_active active key ((j, other) ∷ keys) h = elim (Bool-cases (j == active)) [
  | inl same ↦
      let name : j ≡ active = (eq_iff j active).0 same in
      let value : other ≡ key = cc (rw same at h) in
      (keep (is_active active) keys, rw (same, name, value) refl)
  | inr differs ↦
      let (rest, e) = first_active active key keys (rw differs at h) in (rest, rw differs e)
]

module _ (node : Node) (source_key : String) where
  abbrev candidates : String → Keyring → List String
  candidates active keys =
      map (hmac_key node source_key) (keep (is_active active) keys ++ keep (is_other active) keys)

  includes-append :
      (xs ys : List (String × Buffer)) (k : String)
      → includes (map (hmac_key node source_key) (xs ++ ys)) k ≡ (
          if includes (map (hmac_key node source_key) xs) k
          then true
          else includes (map (hmac_key node source_key) ys) k)
  unfolding includes
  includes-append [] ys k = refl
  includes-append (x ∷ xs) ys k = ground (arith, includes-append xs ys k)

  -- A key of the ring that is kept gives a candidate.
  includes-keep :
      (p : String × Buffer → Bool) (id : String) (key : Buffer) (keys : Keyring)
      → p (id, key) ≡ true
      → lookup id keys ≡ some key
      → includes (map (hmac_key node source_key) (keep p keys)) (hmac_key node source_key (id, key))
        ≡ true
  unfolding includes
  includes-keep p id key [] kept h = absurd (cc h)
  includes-keep p id key ((j, other) ∷ keys) kept h = elim (Bool-cases (j == id)) [
    | inl same ↦
        let name : j ≡ id = (eq_iff j id).0 same in
        let value : other ≡ key = cc (rw same at h) in
        rw (name, value, kept, eq_refl (hmac_key node source_key (id, key))) refl
    | inr differs ↦
        let later = includes-keep p id key keys kept (rw differs at h) in
        elim (Bool-cases (p (j, other))) [
          | inl added ↦ rw added (ground (arith, later))
          | inr dropped ↦ rw dropped later
        ]
  ]

  -- The key of an id stands among the candidates, whichever id is active.
  includes-candidates :
      (active id : String) (key : Buffer) (keys : Keyring)
      → lookup id keys ≡ some key
      → includes (candidates active keys) (hmac_key node source_key (id, key)) ≡ true
  includes-candidates active id key keys h =
      rw (includes-append (keep (is_active active) keys) (keep (is_other active) keys) _)
        (elim (Bool-cases (id == active)) [
          | inl same ↦ rw (includes-keep (is_active active) id key keys same h) refl
          | inr differs ↦
              rw (includes-keep (is_other active) id key keys (rw differs refl) h) (either _)
        ])

  -- The first candidate is the one under the active key.
  first-candidates :
      (active : String) (key : Buffer) (keys : Keyring)
      → lookup active keys ≡ some key
      → first (candidates active keys) ≡ some (hmac_key node source_key (active, key))
  first-candidates active key keys h = let (rest, e) = first_active active key keys h in rw e refl

-- While the HMAC of idempotency keys is enabled in both processes, an event whose key was locked under one
-- active key is recognised after the active key has changed: the key that is locked for a new event is
-- among the candidates of every process whose keyring still has the key that was active then, under the
-- same id. The conditions: the keyrings can be read, and both processes get their candidates.
pub idempotency_keys-rotated :
    (node : Node) (s later : Settings) (source_key : String) (active : String) (keys held : Keyring)
    (key : Buffer) {ks later_ks : List String}
    → is_idempotency_hmac_enabled s ≡ true
    → is_idempotency_hmac_enabled later ≡ true
    → active_key_id s ≡ ok active
    → keyring node s ≡ ok keys
    → lookup active keys ≡ some key
    → keyring node later ≡ ok held
    → lookup active held ≡ some key
    → idempotency_keys node s source_key ≡ ok ks
    → idempotency_keys node later source_key ≡ ok later_ks
    → (locked : String) × (first ks ≡ some locked) × (includes later_ks locked ≡ true)
unfolding idempotency_keys
idempotency_keys-rotated node s later source_key active keys held key {ks} {later_ks} on on' is ring
      found ring' found' made made' =
    let here : candidates node source_key active keys ≡ ks = cc (rw (on, ring, is) at made) in
    elim (Result-cases (active_key_id later)) [
      | inr (x, bad) ↦ absurd (cc (rw (on', ring', bad) at made'))
      | inl (next, is') ↦
          let there : candidates node source_key next held ≡ later_ks =
            cc (rw (on', ring', is') at made') in
          (
            hmac_key node source_key (active, key),
            rw (← here) (first-candidates node source_key active key keys found),
            rw (← there) (includes-candidates node source_key next active key held found'),
          )
    ]

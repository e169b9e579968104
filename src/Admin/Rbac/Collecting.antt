-- ===== src/Admin/Rbac/Collecting.antt =====
-- What the loops over the permissions of roles collect.
use idm_mw.Prelude.{
  String, ◌==◌, ◌≡◌, refl, ap, ◌∙◌, eq_iff, Bool, true, false, ◌&&◌, ◌||◌, none, some, List, [],
  ◌∷◌, any_of, Assoc, All, lookup, insert, arith, inl, inr, Bool-cases,
}
use idm_mw.Admin.Rbac.{
  ConnectorPermission, AdminGroupRoleMapping, or_no_permission, join, collect, collect_mappings,
  values, Access, read, write, passes,
}

abbrev pub grants : Access → String → ConnectorPermission → Bool
grants a type p = p.connector_type == type && passes a p

passes-join :
    (a : Access) (c p : ConnectorPermission) → passes a (join c p) ≡ (passes a c || passes a p)
passes-join read c p = ground arith
passes-join write c p = ground arith

passes-no_permission : (a : Access) (type : String) → passes a (or_no_permission type none) ≡ false
passes-no_permission read type = refl
passes-no_permission write type = refl

-- Every entry stands under the type of its permission.
abbrev IsKeyed : Assoc ConnectorPermission → Type 0
IsKeyed m = All (λ e. e.1.connector_type ≡ e.0) m

or_no_permission-type :
    (k : String) (m : Assoc ConnectorPermission)
    → IsKeyed m
    → (or_no_permission k (lookup k m)).connector_type ≡ k
or_no_permission-type k [] h = refl
or_no_permission-type k ((j, v) ∷ m) (h, hs) = elim (Bool-cases (j == k)) [
  | inl same ↦ rw same (h ∙ (eq_iff j k).0 same)
  | inr other ↦ rw other (or_no_permission-type k m hs)
]

insert-IsKeyed :
    (k : String) (v : ConnectorPermission) (m : Assoc ConnectorPermission)
    → v.connector_type ≡ k
    → IsKeyed m
    → IsKeyed (insert k v m)
insert-IsKeyed k v [] e h = (e, tt)
insert-IsKeyed k v ((j, u) ∷ m) e (h, hs) = elim (Bool-cases (j == k)) [
  | inl same ↦ rw same (e, hs)
  | inr other ↦ rw other (h, insert-IsKeyed k v m e hs)
]

lookup-later :
    (k j : String) (v : ConnectorPermission) (m : Assoc ConnectorPermission)
    → (j == k) ≡ false
    → lookup k ((j, v) ∷ m) ≡ lookup k m
lookup-later k j v m other = rw other

lookup-here :
    (k j : String) (v : ConnectorPermission) (m : Assoc ConnectorPermission)
    → (j == k) ≡ true
    → lookup k ((j, v) ∷ m) ≡ some v
lookup-here k j v m same = rw same

module _ (a : Access) (type : String) where
  grants-join :
      (c p : ConnectorPermission)
      → c.connector_type ≡ p.connector_type
      → grants a type (join c p) ≡ (grants a type c || grants a type p)
  grants-join c p typed =
      ap (λ b. (c.connector_type == type) && b) (passes-join a c p)
      ∙ distributed (c.connector_type == type) (p.connector_type == type) (passes a c) (passes a p)
          (ap (λ t. t == type) typed)
    where
      distributed : (s t x y : Bool) → s ≡ t → (s && (x || y)) ≡ ((s && x) || (t && y))
      distributed s t x y e = ground arith

  -- Joining `p` into what is there under its type, `current`.
  any_of-joined :
      (p current : ConnectorPermission) (m : Assoc ConnectorPermission)
      → IsKeyed m
      → current ≡ or_no_permission p.connector_type (lookup p.connector_type m)
      → current.connector_type ≡ p.connector_type
      → any_of (grants a type) (values (insert p.connector_type (join current p) m))
        ≡ (grants a type p || any_of (grants a type) (values m))
  any_of-joined p current [] h e typed =
      first (grants a type (join current p)) (grants a type p) (passes a current)
        (current.connector_type == type) (grants-join current p typed)
        (ap (passes a) e ∙ passes-no_permission a p.connector_type)
    where
      first : (x y z t : Bool) → x ≡ ((t && z) || y) → z ≡ false → (x || false) ≡ (y || false)
      first x y z t e no_ = ground arith
  any_of-joined p current ((j, v) ∷ m) (h, hs) e typed = elim (Bool-cases (j == p.connector_type)) [
    | inl same ↦ rw same (
        replaced (grants a type (join current p)) (grants a type p) (grants a type current)
          (grants a type v) (any_of (grants a type) (values m)) (grants-join current p typed)
          (ap (grants a type)
            (e ∙ ap (or_no_permission p.connector_type) (lookup-here p.connector_type j v m same))))
    | inr other ↦
        rw
          (
            other,
            any_of-joined p current m hs
                (e
                  ∙ ap (or_no_permission p.connector_type)
                      (lookup-later p.connector_type j v m other))
                typed,
          )
          (swapped (grants a type v) (grants a type p) (any_of (grants a type) (values m)))
  ]
    where
      swapped : (x y z : Bool) → (x || (y || z)) ≡ (y || (x || z))
      swapped x y z = ground arith

      replaced : (x y c v z : Bool) → x ≡ (c || y) → c ≡ v → (x || z) ≡ (y || (v || z))
      replaced x y c v z e e' = ground arith

  any_of-insert :
      (p : ConnectorPermission) (m : Assoc ConnectorPermission)
      → IsKeyed m
      → any_of (grants a type) (
          values (
            insert p.connector_type
              (join (or_no_permission p.connector_type (lookup p.connector_type m)) p)
              m))
        ≡ (grants a type p || any_of (grants a type) (values m))
  any_of-insert p m h = any_of-joined p _ m h refl (or_no_permission-type p.connector_type m h)

  any_of-collect :
      (ps : List ConnectorPermission) (m : Assoc ConnectorPermission)
      → IsKeyed m
      → (any_of (grants a type) (values (collect ps m))
          ≡ (any_of (grants a type) ps || any_of (grants a type) (values m)))
        × IsKeyed (collect ps m)
  unfolding collect
  any_of-collect [] m h = (refl, h)
  any_of-collect (p ∷ rest) m h =
      let (found, keyed) =
        any_of-collect rest _
          (insert-IsKeyed p.connector_type _ m (or_no_permission-type p.connector_type m h) h) in
      (
        found
            ∙ rw (any_of-insert p m h) (
                swapped (any_of (grants a type) rest) (grants a type p)
                  (any_of (grants a type) (values m))),
        keyed,
      )
    where
      swapped : (x y z : Bool) → (x || (y || z)) ≡ ((y || x) || z)
      swapped x y z = ground arith

  pub any_of-collect_mappings :
      (mappings : List AdminGroupRoleMapping) (m : Assoc ConnectorPermission)
      → IsKeyed m
      → any_of (grants a type) (values (collect_mappings mappings m)) ≡ (
          any_of (λ g. any_of (grants a type) g.role.permissions) mappings
          || any_of (grants a type) (values m))
  unfolding collect_mappings
  any_of-collect_mappings [] m h = refl
  any_of-collect_mappings (g ∷ rest) m h =
      let (found, keyed) = any_of-collect g.role.permissions m h in
      any_of-collect_mappings rest _ keyed
      ∙ rw found (
          swapped (any_of (λ g. any_of (grants a type) g.role.permissions) rest)
            (any_of (grants a type) g.role.permissions) (any_of (grants a type) (values m)))
    where
      swapped : (x y z : Bool) → (x || (y || z)) ≡ ((y || x) || z)
      swapped x y z = ground arith

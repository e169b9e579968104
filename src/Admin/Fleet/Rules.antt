-- ===== src/Admin/Fleet/Rules.antt =====
-- Methods of the service on given tables: what a part that only reads returns, and what a part that writes
-- keeps.
use idm_mw.Prelude.{
  ℕ, String, ◌==◌, ◌≡◌, refl, sym, Bool, true, false, Option, none, some, inl, inr, Bool-cases,
  if◌then◌else◌,
}
use idm_mw.Effects.{
  Thrown, Result, ok, throw, Exec, pure, raise, gets, ◌>>=◌, continue, outcome-cases,
}
use idm_mw.Effects.Results.{lift}
use idm_mw.Core.World.{World, TargetSystem, external, fails_now, later}
use idm_mw.Admin.TargetConfig.{bad_request}
use idm_mw.Admin.TargetRows.{find_id}
use idm_mw.Admin.FleetRows.{Fleet, profile_table, is_listed}
use idm_mw.Admin.FleetGuards.{
  or_missing, check_linux, require_linux_target_system, require_credential_profile,
  require_if_given,
}
use idm_mw.Admin.Fleet.Fits.{Fits}

-- On the tables `f` the part changes no table, and what it returns is as `Q` says.
pub record Reads {A : Type 0} (f : Fleet) (part : Exec (World Fleet) A) (Q : A → Type 0)
    : Type 0 where
  pub kept : (w : World Fleet) → w.env ≡ f → (part w).1.env ≡ f
  pub gives : (w u : World Fleet) (a : A) → w.env ≡ f → part w ≡ (ok a, u) → Q a

-- From the tables `f`, if they fit, the part leaves tables that fit.
pub record Keeps {A : Type 0} (f : Fleet) (part : Exec (World Fleet) A) : Type 0 where
  pub at : (w : World Fleet) → w.env ≡ f → Fits f → Fits (part w).1.env

module _ {A B : Type 0} {f : Fleet} where
  continued :
      (next : A → Exec (World Fleet) B) (p : Result A × World Fleet)
      → p.1.env ≡ f
      → ((a : A) (u : World Fleet) → p ≡ (ok a, u) → Keeps f (next a))
      → Fits f
      → Fits (continue next p).1.env
  continued next (ok a, u) same later h = (later a u refl).at u same h
  continued next (throw e, u) same later h = rw same h

  pub Keeps-bind :
      {Q : A → Type 0} (part : Exec (World Fleet) A) (next : A → Exec (World Fleet) B)
      → Reads f part Q
      → ((a : A) → Q a → Keeps f (next a))
      → Keeps f (part >>= next)
  Keeps-bind part next reads later = record {
    at = λ w same h.
        continued next (part w) (reads.kept w same) (λ a u e. later a (reads.gives w u a same e)) h;
  }

module _ {A : Type 0} {f : Fleet} where
  -- What `external` runs, if the database answers.
  pub Keeps-external : (call : Exec (World Fleet) A) → Keeps f call → Keeps f (external call)
  Keeps-external call keeps = record {
    at = λ w same h. elim (Bool-cases (fails_now w.outages)) [
      | inl down ↦ rw (down, same) h
      | inr up ↦ rw up (keeps.at _ same h)
    ];
  }

  pub Reads-gets :
      (read : World Fleet → A)
      → Reads f (external (gets read)) (λ a. (w : World Fleet) × (w.env ≡ f) × (a ≡ read w))
  Reads-gets read = record {
    kept = λ w same. elim (Bool-cases (fails_now w.outages)) [
      | inl down ↦ rw down same
      | inr up ↦ rw up same
    ];
    gives = λ w u a same e. elim (Bool-cases (fails_now w.outages)) [
      | inl down ↦ absurd (cc (rw down at e))
      | inr up ↦ (record w { outages = later w.outages }, same, sym (cc (rw up at e)))
    ];
  }

  pub Reads-lift : (r : Result A) → Reads f (lift r) (λ a. r ≡ ok a)
  Reads-lift r = record { kept = λ w same. same; gives = λ w u a same e. cc e }

  pub Keeps-pure : (a : A) → Keeps f (pure a)
  Keeps-pure a = record { at = λ w same h. rw same h }

  pub Keeps-raise : (e : Thrown) → Keeps f (raise {A = A} e)
  Keeps-raise e = record { at = λ w same h. rw same h }

  pub Reads-pure : (Q : A → Type 0) (a : A) → Q a → Reads f (pure a) Q
  Reads-pure Q a q = record {
    kept = λ w same. same;
    gives = λ w u b same e. let eq : a ≡ b = cc e in rw (← eq) q;
  }

  pub Reads-raise : (Q : A → Type 0) (e : Thrown) → Reads f (raise {A = A} e) Q
  Reads-raise Q e = record { kept = λ w same. same; gives = λ w u b same h. absurd (cc h) }

  pub Reads-or_missing :
      (what : String) (row : Option A) → Reads f (or_missing what row) (λ a. row ≡ some a)
  Reads-or_missing what none = Reads-raise _ _
  Reads-or_missing what (some a) = Reads-pure _ a refl

module _ {A B : Type 0} {f : Fleet} {Q : A → Type 0} {S : B → Type 0} where
  pub Reads-bind :
      (part : Exec (World Fleet) A) (next : A → Exec (World Fleet) B)
      → Reads f part Q
      → ((a : A) → Q a → Reads f (next a) S)
      → Reads f (part >>= next) S
  Reads-bind part next reads later = record {
    kept = λ w same. elim (outcome-cases (part w)) [
      | inl (a, u, e) ↦
          rw e ((later a (reads.gives w u a same e)).kept u (rw e at (reads.kept w same)))
      | inr (x, u, e) ↦ rw e (rw e at (reads.kept w same))
    ];
    gives = λ w v b same h. elim (outcome-cases (part w)) [
      | inl (a, u, e) ↦
          (later a (reads.gives w u a same e)).gives u v b (rw e at (reads.kept w same)) (rw e at h)
      | inr (x, u, e) ↦ absurd (cc (rw e at h))
    ];
  }

module _ {A B : Type 0} {f : Fleet} where
  -- What was written stays, whatever is returned.
  pub Keeps-returning :
      (write : Exec (World Fleet) A) (shown : A → B)
      → Keeps f write
      → Keeps f (write >>= λ a. pure (shown a))
  Keeps-returning write shown keeps = record { at = λ w same h. rest (write w) (keeps.at w same h) }
    where
      rest :
          (p : Result A × World Fleet)
          → Fits p.1.env
          → Fits (continue (λ a. pure (shown a)) p).1.env
      rest (ok a, u) k = k
      rest (throw e, u) k = k

module _ (f : Fleet) where
  pub Reads-require_linux :
      (target : ℕ) → Reads f (require_linux_target_system target) (λ _. Unit {0})
  unfolding require_linux_target_system
  Reads-require_linux target =
      Reads-bind (external (gets (λ w. find_id target w.target_systems))) _ (Reads-gets _)
        (λ found _. checked found)
    where
      checked : (found : Option TargetSystem) → Reads f (check_linux found) (λ _. Unit {0})
      checked none = Reads-raise _ _
      checked (some t) = elim (Bool-cases (t.type == "linux")) [
        | inl linux ↦ rw linux (Reads-pure _ tt tt)
        | inr other ↦ rw other (Reads-raise _ _)
      ]

  -- A profile that is given is in the target system.
  pub Reads-require_if_given :
      (target : ℕ) (given : Option String)
      → Reads f (require_if_given target given) (λ _.
        (id : String) → given ≡ some id → is_listed profile_table target id f.profiles ≡ true)
  unfolding require_credential_profile
  Reads-require_if_given target none = Reads-pure _ tt (λ id e. absurd (cc e))
  Reads-require_if_given target (some given) =
      Reads-bind
        (external (gets (λ (w : World Fleet). is_listed profile_table target given w.env.profiles)))
        _ (Reads-gets _) (λ found (w, same, e). checked found (rw same at e))
    where
      checked :
          (found : Bool)
          → found ≡ is_listed profile_table target given f.profiles
          → Reads f
              (if found
                then pure tt
                else raise (bad_request "Credential profile must belong to the same target system"))
              (λ _.
                (id : String)
                → some given ≡ some id
                → is_listed profile_table target id f.profiles ≡ true)
      checked true e =
          Reads-pure _ tt (λ id same. let eq : given ≡ id = cc same in rw eq at (sym e))
      checked false e = Reads-raise _ _

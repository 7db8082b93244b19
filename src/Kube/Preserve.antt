-- ===== src/Kube/Preserve.antt =====
-- Methods that keep an invariant of the API server's state, whether they succeed or fail.
use coredns_manager_operator.Common.{◌≡◌, refl, Bool, Bool-cases, inl, inr, if◌then◌else◌}
use coredns_manager_operator.Common.Text.{Text}
use coredns_manager_operator.Errors.{Error, Result, ok, Result-cases}
use coredns_manager_operator.Kube.{Exec, pure, lift, raise, gets, ◌>>=◌, ◌>>◌, wrapped}

-- A record, so that the method stays as it is written.
pub record Preserves {S A : Type 0} (P : S → Type 0) (m : Exec S A) : Type 0 where
  pub run : (s : S) → P s → P (m s).1

module _ {S : Type 0} {P : S → Type 0} where
  pub pure-Preserves : {A : Type 0} (a : A) → Preserves P (pure a)
  pure-Preserves a = record { run = λ s h. unfold pure in h }

  pub raise-Preserves : {A : Type 0} (e : Error) → Preserves {A = A} P (raise e)
  raise-Preserves e = record { run = λ s h. unfold raise in h }

  pub lift-Preserves : {A : Type 0} (r : Result A) → Preserves P (lift r)
  lift-Preserves r = record { run = λ s h. unfold lift in h }

  pub gets-Preserves : {A : Type 0} (f : S → A) → Preserves P (gets f)
  gets-Preserves f = record { run = λ s h. unfold gets in h }

  pub wrapped-Preserves :
      {A : Type 0} (prefix : Text) {m : Exec S A} → Preserves P m → Preserves P (wrapped prefix m)
  wrapped-Preserves prefix h = record { run = λ s p. unfold wrapped in h.run s p }

  bind_run :
      {A B : Type 0} (m : Exec S A) (f : A → Exec S B)
      → Preserves P m
      → ((a : A) → Preserves P (f a))
      → (s : S) → P s
      → P ((m >>= f) s).1
  unfolding ◌>>=◌
  bind_run m f hm hf s p = elim (Result-cases (m s).0) [
    | inl (a, e) ↦ rw e ((hf a).run (m s).1 (hm.run s p))
    | inr (e', e) ↦ rw e (hm.run s p)
  ]

  read_run :
      {A B : Type 0} (m : Exec S A) (f : A → Exec S B) (read : S → Result A)
      → ((s : S) → m s ≡ (read s, s))
      → ((a : A) (s : S) → read s ≡ ok a → P s → P (f a s).1)
      → (s : S) → P s
      → P ((m >>= f) s).1
  unfolding ◌>>=◌
  read_run m f read reads h s p =
      rw (reads s)
        (elim (Result-cases (read s)) [ inl (a, e) ↦ rw e (h a s e p) | inr (e', e) ↦ rw e p ])

  pub bind-Preserves :
      {A B : Type 0} {m : Exec S A} {f : A → Exec S B}
      → Preserves P m
      → ((a : A) → Preserves P (f a))
      → Preserves P (m >>= f)
  bind-Preserves {m = m} {f = f} hm hf = record { run = bind_run m f hm hf }

  pub then-Preserves :
      {B : Type 0} {m : Exec S (Unit {0})} {k : Exec S B}
      → Preserves P m
      → Preserves P k
      → Preserves P (m >> k)
  then-Preserves hm hk = unfold ◌>>◌ in bind-Preserves hm (λ _. hk)

  -- A step that reads: what follows may use what was read, and the invariant.
  pub read-Preserves :
      {A B : Type 0} {m : Exec S A} (f : A → Exec S B) (read : S → Result A)
      → ((s : S) → m s ≡ (read s, s))
      → ((a : A) (s : S) → read s ≡ ok a → P s → P (f a s).1)
      → Preserves P (m >>= f)
  read-Preserves {m = m} f read reads h = record { run = read_run m f read reads h }

  pub if-Preserves :
      {A : Type 0} (b : Bool) {m n : Exec S A}
      → Preserves P m
      → Preserves P n
      → Preserves P (if b then m else n)
  if-Preserves b hm hn = elim (Bool-cases b) [ inl holds ↦ rw holds hm | inr fails ↦ rw fails hn ]

-- Neither result touches the state.
pub either_way :
    {S A : Type 0} (b : Bool) (r r' : Result A) (s : S)
    → let x : Result A × S = if b then (r, s) else (r', s) in x.1 ≡ s
either_way b r r' s = elim (Bool-cases b) [ inl holds ↦ rw holds refl | inr fails ↦ rw fails refl ]

module _ {S A B : Type 0} where
  pub run-gets : (f : S → A) (k : A → Exec S B) (s : S) → (gets f >>= k) s ≡ k (f s) s
  unfolding gets ◌>>=◌
  run-gets f k s = refl

  pub state-wrapped :
      (prefix : Text) (m : Exec S A) (b : B) (s : S)
      → ((wrapped prefix m >>= λ _. pure b) s).1 ≡ (m s).1
  unfolding pure ◌>>=◌ wrapped
  state-wrapped prefix m b s = elim (Result-cases (m s).0) [
    | inl (a, e) ↦ rw e refl
    | inr (e', e) ↦ rw e refl
  ]

-- ===== src/Errors.antt =====
-- Go's `error` values. `apierrors` tells them apart by the API server's reason; `fmt.Errorf`
-- with `%v` makes a new error that keeps the text and loses the reason.
use coredns_manager_operator.Common.{◌≡◌, refl, ◌⊎◌, inl, inr, Bool, true, false, ◌++◌, arith}
use coredns_manager_operator.Common.Text.{Text}

pub data ErrorReason : Type 0 where
  not_found already_exists other_reason : ErrorReason

pub record Error : Type 0 where
  pub reason : ErrorReason
  pub message : Text

-- apierrors.IsNotFound
abbrev pub is_not_found : Error → Bool
is_not_found e = elim e.reason [ not_found ↦ true | _ ↦ false ]

-- apierrors.IsAlreadyExists
abbrev pub is_already_exists : Error → Bool
is_already_exists e = elim e.reason [ already_exists ↦ true | _ ↦ false ]

-- errors.New
abbrev pub new_error : Text → Error
new_error message = record { reason = other_reason; message = message }

-- fmt.Errorf("…: %v", err)
abbrev pub errorf : Text → Error → Error
errorf prefix e = new_error (prefix ++ e.message)

pub data Result {ℓ} (A : Type ℓ) : Type ℓ where
  ok : A → Result A
  err : Error → Result A

infixl 5 ◌>>=◌
abbrev pub ◌>>=◌ {ℓ κ} : {A : Type ℓ} {B : Type κ} → Result A → (A → Result B) → Result B
ok a >>= f = f a
err e >>= f = err e

-- `if err != nil { return …, fmt.Errorf("…: %v", err) }`
abbrev pub wrap {ℓ} : {A : Type ℓ} → Text → Result A → Result A
wrap prefix (ok a) = ok a
wrap prefix (err e) = err (errorf prefix e)

-- To split on a computed result and keep the equation.
pub Result-cases {ℓ} :
    {A : Type ℓ} (r : Result A) → ((a : A) × (r ≡ ok a)) ⊎ ((e : Error) × (r ≡ err e))
Result-cases (ok a) = inl (a, refl)
Result-cases (err e) = inr (e, refl)

pub wrap-ok {ℓ} :
    {A : Type ℓ} (prefix : Text) (r : Result A) (a : A) → wrap prefix r ≡ ok a → r ≡ ok a
wrap-ok prefix (ok b) a h = h
wrap-ok prefix (err e) a h = absurd (ground (arith, h))

pub ok-injective {ℓ} : {A : Type ℓ} {a b : A} → (let x : Result A = ok a in x ≡ ok b) → a ≡ b
ok-injective h = cc

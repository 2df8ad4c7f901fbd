-- ===== src/Sftp/Branches.antt =====
-- What holds of the result of a handler on each of its branches.
use pisshoff.Base.{Option, none, some, ok, err, Outcome, returns, panics}
use pisshoff.Nom.{IResult}
use pisshoff.Sftp.{unwrapped, or_panic}

-- What holds of a result where there is one.
abbrev pub Where : {A : Type 0} → (A → Type 0) → Outcome A → Type 0
Where P (returns a) = P a
Where P panics = Unit

pub Where-unwrapped :
    {A B : Type 0} (P : B → Type 0) (r : IResult A) (f : A → Outcome B)
    → ((a : A) → Where P (f a))
    → Where P (unwrapped r f)
Where-unwrapped P (ok (rest, a)) f h = h a
Where-unwrapped P (err e) f h = tt

pub Where-or_panic :
    {A B : Type 0} (P : B → Type 0) (r : Option A) (f : A → Outcome B)
    → ((a : A) → Where P (f a))
    → Where P (or_panic r f)
Where-or_panic P (some a) f h = h a
Where-or_panic P none f h = tt

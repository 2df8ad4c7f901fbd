-- ===== src/Nom.antt =====
-- The interface of the parser combinators of the crate nom (version 7), which are not part of the
-- program: the parsers take them as an argument, and `Laws` has what nom documents of them.
pub mod Laws
pub mod Lengths
pub mod Fronts
pub mod Nesting
pub mod Loops
pub mod Choices
pub mod Pieces
pub mod Reference
use pisshoff.Base.{ℕ, Bool, Bytes, List, Option, Result, ok, err}

-- The kinds of error that the parsers of the program can meet.
pub data ErrorKind : Type 0 where
  eof verify tag_error take_until_error digit_error map_res_error map_opt_error : ErrorKind
  take_while1_error is_not_error alphanumeric_error multispace_error char_error : ErrorKind
  escaped_transform_error fail_error many_till_error many0_error : ErrorKind

-- `nom::Err`
pub data Err : Type 0 where
  incomplete : Err
  error : ErrorKind → Err
  failure : ErrorKind → Err

-- The rest of the input, and the output.
abbrev pub IResult : Type 0 → Type 0
IResult A = Result Err (Bytes × A)

abbrev pub Parser : Type 0 → Type 0
Parser A = Bytes → IResult A

pub record Nom : Type 1 where
  pub tag : Bytes → Parser Bytes
  pub take : ℕ → Parser Bytes
  pub take_until : Bytes → Parser Bytes
  pub digit1 : Parser Bytes
  pub u64_text : Parser ℕ
  pub be_u8 : Parser ℕ
  pub be_u32 : Parser ℕ
  pub be_u64 : Parser ℕ
  pub map_output : {A B : Type 0} → Parser A → (A → B) → Parser B
  pub map_res : {A B : Type 0} → Parser A → (A → Option B) → Parser B
  -- the first alternative that does not fail with an `error`
  pub alt : {A : Type 0} → List (Parser A) → Parser A
  pub opt : {A : Type 0} → Parser A → Parser (Option A)
  pub take_while1 : (ℕ → Bool) → Parser Bytes
  pub is_not : Bytes → Parser Bytes
  pub digit0 : Parser Bytes
  pub alphanumeric1 : Parser Bytes
  pub multispace1 : Parser Bytes
  pub char : ℕ → Parser ℕ
  pub is_alphanum : ℕ → Bool
  pub escaped_transform : Parser Bytes → ℕ → Parser Bytes → Parser Bytes
  pub value : {A B : Type 0} → B → Parser A → Parser B
  pub map_opt : {A B : Type 0} → Parser A → (A → Option B) → Parser B
  pub peek : {A : Type 0} → Parser A → Parser A
  pub cut : {A : Type 0} → Parser A → Parser A
  pub fail : {A : Type 0} → Parser A
  pub context : {A : Type 0} → Bytes → Parser A → Parser A
  pub delimited : {A B C : Type 0} → Parser A → Parser B → Parser C → Parser B
  pub preceded : {A B : Type 0} → Parser A → Parser B → Parser B
  pub many_till : {A B : Type 0} → Parser A → Parser B → Parser (List A × B)
  pub fold_many0 : {A R : Type 0} → Parser A → R → (R → A → R) → Parser R
  -- `atoi` of the crate of that name, at `u8`
  pub atoi_u8 : Bytes → Option ℕ

-- The operator `?`.
infixl 5 ◌>>=◌
abbrev pub ◌>>=◌ : {A B : Type 0} → IResult A → (Bytes × A → IResult B) → IResult B
ok a >>= f = f a
err e >>= f = err e

-- ===== src/Command/Uname/Orders.antt =====
-- The order of uname's options.
use pisshoff.Base.{
  ℕ, Bool, true, false, ◌||◌, List, [], ◌∷◌, Bytes, ◌≡◌, refl, ap, sym, ◌∙◌, arith, All, ◌⊎◌, inl,
  inr, Perm, Permᴰ, All-Permᴰ, ∥∥₁_elim,
}
use pisshoff.Command.Results.{Arg, argparse}
use pisshoff.Command.Uname.{
  ToPrint, union, all_to_print, none_to_print, Action, add, add_all, stop, action, print, run,
  execute,
}

-- What an argument adds, and whether it hides what is unknown; none where it ends the call.
abbrev flags_of : Action → ToPrint
flags_of (add p) = p
flags_of add_all = all_to_print
flags_of (stop out code) = none_to_print

abbrev hides : Action → Bool
hides (add p) = false
hides add_all = true
hides (stop out code) = false

abbrev Goes : Action → Type 0
Goes (add p) = Unit
Goes add_all = Unit
Goes (stop out code) = ⊥

-- An option that uname knows, other than `--help` and `--version`.
abbrev pub IsFlag : Arg → Type 0
IsFlag a = Goes (action a)

Goes-cases : (x : Action) → Goes x → ((q : ToPrint) × (x ≡ add q)) ⊎ (x ≡ add_all)
Goes-cases (add p) h = inl (p, refl)
Goes-cases add_all h = inr refl
Goes-cases (stop out code) h = absurd h

swap_or : (a b c : Bool) → ((a || b) || c) ≡ ((a || c) || b)
swap_or true b c = refl
swap_or false true true = refl
swap_or false true false = refl
swap_or false false true = refl
swap_or false false false = refl

or_true : (a : Bool) → (a || true) ≡ true
or_true true = refl
or_true false = refl

or_false : (a : Bool) → (a || false) ≡ a
or_false true = refl
or_false false = refl

swap_union : (p q r : ToPrint) → union (union p q) r ≡ union (union p r) q
swap_union p q r = ground (
  arith,
  swap_or p.kernel_name q.kernel_name r.kernel_name,
  swap_or p.node_name q.node_name r.node_name,
  swap_or p.kernel_release q.kernel_release r.kernel_release,
  swap_or p.kernel_version q.kernel_version r.kernel_version,
  swap_or p.machine q.machine r.machine,
  swap_or p.processor q.processor r.processor,
  swap_or p.platform q.platform r.platform,
  swap_or p.operating_system q.operating_system r.operating_system,
)

-- What the arguments add up to.
collected : ToPrint → Bool → List Arg → ToPrint × Bool
collected p f [] = (p, f)
collected p f (a ∷ args) = collected (union p (flags_of (action a))) (f || hides (action a)) args

printed : ToPrint × Bool → Bytes × ℕ
printed (p, f) = (print p f, 0)

run-flags :
    (p : ToPrint) (f : Bool) (args : List Arg)
    → All IsFlag args
    → run p f args ≡ printed (collected p f args)
unfolding run collected printed
run-flags p f [] h = refl
run-flags p f (a ∷ args) (h, hs) = elim (Goes-cases (action a) h) [
  | inl (q, e) ↦ rw (e, run, collected, or_false f) (run-flags (union p q) f args hs)
  | inr e ↦ rw (e, run, collected, or_true f) (run-flags (union p all_to_print) true args hs)
]

collected-Permᴰ :
    {args args' : List Arg}
    → Permᴰ args args'
    → (p : ToPrint) (f : Bool) → collected p f args ≡ collected p f args'
unfolding collected
collected-Permᴰ Permᴰ.nil p f = refl
collected-Permᴰ (Permᴰ.cons e d) p f = rw e (collected-Permᴰ d _ _)
collected-Permᴰ (Permᴰ.swap {a} {b} {l = l} e e') p f =
    rw
      (
        ← e,
        ← e',
        swap_union p (flags_of (action a)) (flags_of (action b)),
        swap_or f (hides (action a)) (hides (action b)),
      )
      refl
collected-Permᴰ (Permᴰ.trans d d') p f = collected-Permᴰ d p f ∙ collected-Permᴰ d' p f

-- Neither the order of uname's options matters nor how they are spread over the words of the line:
-- where all arguments are options that print something, two lines with the same options have the
-- same output and the same status.
pub execute-Perm :
    (params params' : List Bytes)
    → All IsFlag (argparse params)
    → Perm (argparse params) (argparse params')
    → execute params ≡ execute params'
unfolding execute
execute-Perm params params' h d = ∥∥₁_elim d (hlevel) (λ d'.
    run-flags none_to_print false (argparse params) h
    ∙ ap printed (collected-Permᴰ d' none_to_print false)
    ∙ sym (run-flags none_to_print false (argparse params') (All-Permᴰ IsFlag d' h)))

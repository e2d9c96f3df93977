-- ===== src/Prelude/Loop.antt =====
-- Programs that change a state and may stop with an error, and their loops.
use mathlib.Core.Option.{Option, none, some}
use mathlib.Core.List.{List, [], ◌∷◌}
use mathlib.Core.Path.{◌≡◌, refl, sym, subst}
use mathlib.Core.Logic.{inl, inr}
use microceph.Prelude.Lists.{Occurs}

-- The state after the run, and the error that it returned, if any.
abbrev pub Action : Type 0 → Type 0 → Type 0
Action S E = S → S × Option E

module _ {S E : Type 0} where
  -- Goes on from the state unless an error stands beside it.
  abbrev pub resume : Action S E → S → Option E → S × Option E
  resume q s none = q s
  resume q s (some e) = (s, some e)

  infixl 5 ◌>>◌
  abbrev pub ◌>>◌ : Action S E → Action S E → Action S E
  ◌>>◌ p q s = let r = p s in resume q r.0 r.1

  abbrev pub skip : Action S E
  skip s = (s, none)

  -- `for _, x := range xs { if err := f(x); err != nil { return err } }`
  unfoldable pub for_each {ℓ} : {A : Type ℓ} → (A → Action S E) → List A → Action S E
  for_each f [] s = (s, none)
  for_each f (x ∷ xs) s = let r = f x s in resume (for_each f xs) r.0 r.1

  -- A property that the second part keeps is kept by going on or stopping.
  pub resume_keeps {κ} :
      (P : S → Type κ) (q : Action S E)
      → ((s : S) → P s → P (q s).0)
      → (s : S) (o : Option E) → P s
      → P (resume q s o).0
  resume_keeps P q hq s none h = hq s h
  resume_keeps P q hq s (some e) h = h

  -- A property that each round keeps holds after the loop, also where it stopped with an error.
  pub for_each_keeps {ℓ κ} :
      {A : Type ℓ} (P : S → Type κ) (f : A → Action S E)
      → ((x : A) (s : S) → P s → P (f x s).0)
      → (xs : List A) (s : S) → P s
      → P (for_each f xs s).0
  unfolding for_each
  for_each_keeps P f keep [] s h = h
  for_each_keeps P f keep (x ∷ xs) s h =
      resume_keeps P (for_each f xs) (for_each_keeps P f keep xs) (f x s).0 (f x s).1 (keep x s h)

  -- Where the second part starts from `s`, the whole ends there or where that part ends.
  pub resume_either {κ} :
      (P : S → Type κ) (q : Action S E) (s : S) (o : Option E)
      → P s
      → P (q s).0
      → P (resume q s o).0
  resume_either P q s none h k = k
  resume_either P q s (some e) h k = h

  -- A run that ends with no error had none before.
  pub resume-none : (q : Action S E) (s : S) (o : Option E) → (resume q s o).1 ≡ none → o ≡ none
  resume-none q s none h = refl
  resume-none q s (some e) h = cc

  -- A loop that ends with no error reaches what its round at `x` reaches and every round keeps.
  pub for_each_reaches {κ μ} :
      {A : Type 0} (I : S → Type κ) (R : S → Type μ) (f : A → Action S E) (x : A)
      → ((y : A) (s : S) → I s → I (f y s).0)
      → ((y : A) (s : S) → R s → R (f y s).0)
      → ((s : S) → I s → (f x s).1 ≡ none → R (f x s).0)
      → (xs : List A) (s : S) → Occurs x xs
      → I s
      → (for_each f xs s).1 ≡ none
      → R (for_each f xs s).0
  unfolding for_each
  for_each_reaches I R f x keep_i keep_r reach [] s q i h = absurd q
  for_each_reaches I R f x keep_i keep_r reach (y ∷ ys) s q i h =
      let quiet = resume-none (for_each f ys) (f y s).0 (f y s).1 h in
      let later : (for_each f ys (f y s).0).1 ≡ none =
        subst (λ o. (resume (for_each f ys) (f y s).0 o).1 ≡ none) quiet h in
      rw quiet (elim q [
        | inl e ↦
            for_each_keeps R f keep_r ys (f y s).0
              (subst (λ z. R (f z s).0) (sym e) (reach s i (subst (λ z. (f z s).1 ≡ none) e quiet)))
        | inr further ↦
            for_each_reaches I R f x keep_i keep_r reach ys (f y s).0 further (keep_i y s i) later
      ])

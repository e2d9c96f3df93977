-- ===== src/Osd/Removal/Rules.antt =====
-- Rules for the chains of calls in doRemoveOSD (microceph/ceph/osd.go): what holds of the log before
-- a step, and after it for its result or its error.
use microceph.Prelude.{ℕ, zero, suc, ◌∷◌, Bool, true, false, ◌≡◌, refl, Result, ok, err}
use microceph.Osd.Removal.{
  Command, Fault, TeardownError, did, refused, Log, Env, Ended, Chain, continue_with, ◌>>=◌,
  log_call, or_fail, when, demand, attempt_call, logged, round, reaches,
}

abbrev pub Post : {A : Type 0} → (A → Log → Bool) → (Log → Bool) → Ended A → Type 0
Post Q E (ok x, log) = Q x log ≡ true
Post Q E (err e, log) = E log ≡ true

-- From a log with P the step ends with Q on a result and with E on an error.
pub record Triple {A : Type 0} (P : Log → Bool) (m : Chain A) (Q : A → Log → Bool) (E : Log → Bool)
    : Type 0 where
  pub holds : (log : Log) → P log ≡ true → Post Q E (m log)

continue_with-Post :
    {A B : Type 0} (Q : A → Log → Bool) (R : B → Log → Bool) (E : Log → Bool) (k : A → Chain B)
    → ((x : A) → Triple (Q x) (k x) R E)
    → (o : Ended A) → Post Q E o
    → Post R E (continue_with k o)
unfolding continue_with
continue_with-Post Q R E k next (ok x, log) h = (next x).holds log h
continue_with-Post Q R E k next (err e, log) h = h

pub bind :
    {A B : Type 0} {P : Log → Bool} (Q : A → Log → Bool) {R : B → Log → Bool} {E : Log → Bool}
    {m : Chain A} {k : A → Chain B}
    → Triple P m Q E
    → ((x : A) → Triple (Q x) (k x) R E)
    → Triple P (m >>= k) R E
unfolding ◌>>=◌
bind Q {R = R} {E = E} {m = m} {k = k} first next = record {
  holds = λ log h. continue_with-Post Q R E k next (m log) (first.holds log h);
}

Post-weaken :
    {A : Type 0} (Q R : A → Log → Bool) (E F : Log → Bool)
    → ((x : A) (log : Log) → Q x log ≡ true → R x log ≡ true)
    → ((log : Log) → E log ≡ true → F log ≡ true)
    → (o : Ended A) → Post Q E o
    → Post R F o
Post-weaken Q R E F on_result on_error (ok x, log) h = on_result x log h
Post-weaken Q R E F on_result on_error (err e, log) h = on_error log h

pub weaken :
    {A : Type 0} {P : Log → Bool} (Q R : A → Log → Bool) (E F : Log → Bool) {m : Chain A}
    → ((x : A) (log : Log) → Q x log ≡ true → R x log ≡ true)
    → ((log : Log) → E log ≡ true → F log ≡ true)
    → Triple P m Q E
    → Triple P m R F
weaken Q R E F {m = m} on_result on_error h = record {
  holds = λ log p. Post-weaken Q R E F on_result on_error (m log) (h.holds log p);
}

noted_value :
    (Q : Bool → Log → Bool) (E : Log → Bool) (act : Command) (log : Log) (r : Result Fault Bool)
    → ((b : Bool) → Q b (did act b ∷ log) ≡ true)
    → E (refused act ∷ log) ≡ true
    → Post Q E (or_fail act (log_call act log r))
unfolding or_fail log_call
noted_value Q E act log (ok b) h k = h b
noted_value Q E act log (err e) h k = k

pub precede :
    {A : Type 0} {P : Log → Bool} (P' : Log → Bool) {m : Chain A} {Q : A → Log → Bool}
    {E : Log → Bool}
    → ((log : Log) → P log ≡ true → P' log ≡ true)
    → Triple P' m Q E
    → Triple P m Q E
precede P' h t = record { holds = λ log p. t.holds log (h log p) }

attempted :
    (Q : Log → Bool) (act : Command) (log : Log) (r : Result Fault Bool)
    → ((b : Bool) → Q (did act b ∷ log) ≡ true)
    → Q (refused act ∷ log) ≡ true
    → Q (log_call act log r).1 ≡ true
unfolding log_call
attempted Q act log (ok b) h k = h b
attempted Q act log (err e) h k = k

-- What a call must lead to, whether it succeeds or fails.
abbrev pub Answers : (Log → Bool) → Command → (Bool → Log → Bool) → (Log → Bool) → Type 0
Answers P act Q E =
    (log : Log)
    → P log ≡ true
    → ((b : Bool) → Q b (did act b ∷ log) ≡ true) × (E (refused act ∷ log) ≡ true)

module _ (env : Env) where
  pub demand-Triple :
      {P : Log → Bool} (Q : Bool → Log → Bool) {E : Log → Bool} {act : Command}
      → Answers P act Q E
      → Triple P (demand env act) Q E
  unfolding demand
  demand-Triple Q {E = E} {act = act} h = record {
    holds = λ log p. noted_value Q E act log (env.answer act log) (h log p).0 (h log p).1;
  }

  pub attempt_call-keeps :
      {P : Log → Bool} (Q : Log → Bool) {act : Command}
      → Answers P act (λ _. Q) Q
      → (log : Log) → P log ≡ true
      → Q (attempt_call env act log) ≡ true
  unfolding attempt_call
  attempt_call-keeps Q {act = act} h log p =
      attempted Q act log (env.answer act log) (h log p).0 (h log p).1

  pub logged-Triple :
      {P : Log → Bool} (Q : Log → Bool) (E : Log → Bool) {act : Command}
      → Answers P act (λ _. Q) Q
      → Triple P (logged env act) (λ _. Q) E
  unfolding logged
  logged-Triple Q E h = record { holds = λ log p. attempt_call-keeps Q h log p }

  pub round-Post :
      (Q : Bool → Log → Bool) (E : Log → Bool) (again : Fault → Chain Bool) (act : Command)
      (log : Log) (r : Result Fault Bool)
      → ((b : Bool) → Q true (did act b ∷ log) ≡ true)
      → ((f : Fault) → Post Q E (again f (refused act ∷ log)))
      → Post Q E (round again act log r)
  unfolding round
  round-Post Q E again act log (ok b) h k = h b
  round-Post Q E again act log (err f) h k = k f

  -- A loop of attempts that only its success takes from P to Q.
  pub reaches-Triple :
      (P : Log → Bool) (Q : Bool → Log → Bool) (tries : ℕ) (act : Command) (e : TeardownError)
      → ((log : Log)
          → P log ≡ true
          → ((b : Bool) → Q true (did act b ∷ log) ≡ true) × (P (refused act ∷ log) ≡ true))
      → Triple P (reaches env tries act e) Q P
  unfolding reaches
  reaches-Triple P Q zero act e h = record { holds = λ log p. p }
  reaches-Triple P Q (suc tries) act e h = record {
    holds = λ log p.
        round-Post Q P (λ f. reaches env tries act e) act log (env.answer act log) (h log p).0
          (λ f. (reaches-Triple P Q tries act e h).holds (refused act ∷ log) (h log p).1);
  }

pub when-Triple :
    {P : Log → Bool} {Q : Log → Bool} {E : Log → Bool} {m : Chain Bool} (b : Bool)
    → (b ≡ true → Triple P m (λ _. Q) E)
    → (b ≡ false → (log : Log) → P log ≡ true → Q log ≡ true)
    → Triple P (when b m) (λ _. Q) E
unfolding when
when-Triple true h k = h refl
when-Triple false h k = record { holds = k refl }

-- ===== src/Dsl/Match/Devices.antt =====
-- Which devices an expression selects: MatchDevices of microceph/dsl/dsl.go, by what the evaluator
-- gives on each device.
use microceph.Prelude.{
  ◌∷◌, [], List, Bool, true, false, ◌≡◌, ◌≢◌, ◌⊎◌, inl, inr, refl, if◌then◌else◌, Result, ok, err,
  ◌>>=◌, arith, not, ◌==◌,
}
use microceph.Dsl.Text.{Bytes, bytes_eq}
use microceph.Dsl.Library.{Library}
use microceph.Dsl.Ast.{Expression}
use microceph.Dsl.Device.{Disk, new_device_context}
use microceph.Dsl.Value.{Value, nil_value, bool_value, string_value, number_value, truth}
use microceph.Dsl.Eval.{EvalFailure, eval}
use microceph.Dsl.Match.{match_device, match_devices}

module _ (F : Library) where
  -- A value that counts as true: true itself, a text that is not empty, a number other than 0.
  abbrev pub Truthy : Value F.Number → Type 0
  Truthy nil_value = ⊥
  Truthy (bool_value b) = b ≡ true
  Truthy (string_value s) = s ≢ []
  Truthy (number_value n) = F.equal n (F.of_nat 0) ≡ false

  truth_text : (s : Bytes) → not (s == []) ≡ true → s ≢ []
  truth_text s h e = let same = (bytes_eq.beq_iff s []).1 e in ground arith

  empty_text : (s : Bytes) → not (s == []) ≡ false → s ≡ []
  empty_text s h = (bytes_eq.beq_iff s []).0 (ground arith)

  truth-Truthy : (v : Value F.Number) → truth F v ≡ true → Truthy v
  unfolding truth
  truth-Truthy nil_value h = let bad : false ≡ true = h in cc
  truth-Truthy (bool_value b) h = h
  truth-Truthy (string_value s) h = truth_text s h
  truth-Truthy (number_value n) h = ground arith

  truth-not_Truthy : (v : Value F.Number) → truth F v ≡ false → Truthy v → ⊥
  unfolding truth
  truth-not_Truthy nil_value h t = t
  truth-not_Truthy (bool_value b) h t = cc
  truth-not_Truthy (string_value s) h t = t (empty_text s h)
  truth-not_Truthy (number_value n) h t = ground arith

module _ (F : Library) (e : Expression F.Number) (hostname : Bytes) where
  abbrev pub value_on : Disk → Result EvalFailure (Value F.Number)
  value_on d = eval F (new_device_context d hostname) e

  -- The devices with a true value among those given, each with a value, in their order.
  abbrev pub Selected : List Disk → List Disk → Type 0
  Selected [] out = out ≡ []
  Selected (d ∷ ds) out =
      (v : Value F.Number) × (value_on d ≡ ok v)
      × ((Truthy F v × (rest : List Disk) × (out ≡ d ∷ rest) × Selected ds rest)
          ⊎ ((Truthy F v → ⊥) × Selected ds out))

  -- The first device without a value, with the error of the evaluator.
  abbrev pub FailsAt : List Disk → EvalFailure → Type 0
  FailsAt [] x = ⊥
  FailsAt (d ∷ ds) x =
      (value_on d ≡ err x) ⊎ (((v : Value F.Number) × (value_on d ≡ ok v)) × FailsAt ds x)

  abbrev pub Reported : List Disk → Result EvalFailure (List Disk) → Type 0
  Reported disks (ok out) = Selected disks out
  Reported disks (err x) = FailsAt disks x

  kept_if :
      (d : Disk) (ds out : List Disk) (v : Value F.Number) (b : Bool)
      → value_on d ≡ ok v
      → truth F v ≡ b
      → Selected ds out
      → Selected (d ∷ ds) (if b then d ∷ out else out)
  kept_if d ds out v true h t rest = (v, h, inl (truth-Truthy F v t, out, refl, rest))
  kept_if d ds out v false h t rest = (v, h, inr (truth-not_Truthy F v t, rest))

  first-Reported :
      (d : Disk) (ds : List Disk) (m : Result EvalFailure (Value F.Number))
      (r : Result EvalFailure (List Disk))
      → value_on d ≡ m
      → Reported ds r
      → Reported (d ∷ ds) (
          (m >>= λ value. ok (truth F value)) >>= λ matched.
          r >>= λ rest. ok (if matched then d ∷ rest else rest))
  first-Reported d ds (err x) r h rest = inl h
  first-Reported d ds (ok v) (ok out) h rest = kept_if d ds out v (truth F v) h refl rest
  first-Reported d ds (ok v) (err x) h rest = inr ((v, h), rest)

  -- Where MatchDevices gives devices, the evaluator gives a value on every device, and the devices
  -- given are those with a true value, in their order; where it gives an error, that is the
  -- evaluator's on the first device without a value. True are the Boolean true, a text that is not
  -- empty and a number other than 0.
  pub match_devices-Reported :
      (disks : List Disk) → Reported disks (match_devices F e hostname disks)
  unfolding match_devices match_device
  match_devices-Reported [] = refl
  match_devices-Reported (d ∷ ds) =
      first-Reported d ds (value_on d) (match_devices F e hostname ds) refl
        (match_devices-Reported ds)

-- ===== src/Floats.antt =====
-- Python's floats. Their arithmetic is the interpreter's, so the type and its operations are a
-- parameter: an instance argument of every definition that computes with floats.
use ai_compute_intelligence.Prelude.{ℕ, ◌+◌, ◌-◌, ◌*◌, ◌/◌, String, Bool, ltb, leb}

pub record Floats : Type 1 where
  pub Float : Type 0
  -- the literal n / d, and the conversion of an integer (d = 1)
  pub lit : ℕ → ℕ → Float
  pub add : Float → Float → Float
  pub sub : Float → Float → Float
  pub mul : Float → Float → Float
  pub div : Float → Float → Float
  -- `<` and `<=`
  pub flt : Float → Float → Bool
  pub fle : Float → Float → Bool
  -- `format(x, spec)`, as in `f"{x:.2f}"`
  pub show : String → Float → String

abbrev pub Float : ⦃F : Floats⦄ → Type 0
Float ⦃F⦄ = F.Float

abbrev pub lit : ⦃F : Floats⦄ → ℕ → ℕ → F.Float
lit ⦃F⦄ = F.lit

abbrev pub flt : ⦃F : Floats⦄ → F.Float → F.Float → Bool
flt ⦃F⦄ = F.flt

abbrev pub fle : ⦃F : Floats⦄ → F.Float → F.Float → Bool
fle ⦃F⦄ = F.fle

abbrev pub show : ⦃F : Floats⦄ → String → F.Float → String
show ⦃F⦄ = F.show

abbrev pub fsub : ⦃F : Floats⦄ → F.Float → F.Float → F.Float
fsub ⦃F⦄ = F.sub

abbrev pub fadd : ⦃F : Floats⦄ → F.Float → F.Float → F.Float
fadd ⦃F⦄ = F.add

abbrev pub fmul : ⦃F : Floats⦄ → F.Float → F.Float → F.Float
fmul ⦃F⦄ = F.mul

abbrev pub fdiv : ⦃F : Floats⦄ → F.Float → F.Float → F.Float
fdiv ⦃F⦄ = F.div

-- Millionths, for the tests: sums and orders are exact on what the tests use.
instance abbrev pub micro : Floats
micro = record {
  Float = ℕ;
  lit = λ n d. n * 1000000 / d;
  add = λ a b. a + b;
  sub = λ a b. a - b;
  mul = λ a b. a * b / 1000000;
  div = λ a b. a * 1000000 / b;
  flt = ltb;
  fle = leb;
  show = λ spec x. "x";
}

-- ===== src/Base/Dynamic.antt =====
-- Python values as a parser of YAML or JSON returns them, what the source asks of them (truth, `get`,
-- iteration, `int`, `float`, `str`), and the exceptions of those operations. The conversions from and to
-- text are the interface `Conversions`.
use smart_bandwidth_optimize.Base.Tests.{◌==◌, if◌then◌else◌, or_else}
use smart_bandwidth_optimize.Base.Int.{ℤ, pos, negsuc}
use smart_bandwidth_optimize.Base.Text.{Text, text_eq}
use smart_bandwidth_optimize.Base.Float.{Float, num, eq_by}
use mathlib.Core.Path.{◌≡◌, refl}
use mathlib.Core.Bool.{Bool, true, false, not}
use mathlib.Core.Option.{Option, none, some}
use mathlib.Core.List.{List, [], ◌∷◌, map}

mutual
  pub data Value (F : Type 0) : Type 0 where
    null : Value F
    boolean : Bool → Value F
    int : ℤ → Value F
    float : F → Value F
    str : Text → Value F
    sequence : Items F → Value F
    mapping : Fields F → Value F

  pub data Items (F : Type 0) : Type 0 where
    nil : Items F
    cons : Value F → Items F → Items F

  pub data Fields (F : Type 0) : Type 0 where
    end : Fields F
    field : Value F → Value F → Fields F → Fields F

pub data PyError : Type 0 where
  attribute_error type_error value_error : PyError

-- A result, the module's own exception, or another one.
pub data Result (E A : Type 0) : Type 0 where
  ok : A → Result E A
  failed : E → Result E A
  raised : PyError → Result E A

module _ {E : Type 0} where
  infixl 5 ◌>>=◌ ◌>>◌
  abbrev pub ◌>>=◌ : {A B : Type 0} → Result E A → (A → Result E B) → Result E B
  ok a >>= f = f a
  failed e >>= f = failed e
  raised e >>= f = raised e

  abbrev pub ◌>>◌ : {B : Type 0} → Result E (Unit {0}) → Result E B → Result E B
  m >> k = m >>= λ _. k

  -- `if not test: raise ...`
  abbrev pub guard : Bool → E → Result E (Unit {0})
  guard true e = ok tt
  guard false e = failed e

  abbrev pub or_raise : {A : Type 0} → Option A → PyError → Result E A
  or_raise none e = raised e
  or_raise (some a) e = ok a

-- `int(s)`, `float(s)`, `int(x)` for a float (`none` for one that is not finite, an `OverflowError` or a
-- `ValueError`, taken as the latter), `str(v)` for what is no text, and `x < 0.0`, which is false for NaN.
pub record Conversions (F : Type 0) : Type 0 where
  pub text_int : Text → Option ℤ
  pub text_float : Text → Option F
  pub float_int : F → Option ℤ
  pub show : Value F → Text
  pub is_negative : F → Bool

module _ {F : Type 0} where
  abbrev pub elements : Items F → List (Value F)
  elements nil = []
  elements (cons v vs) = v ∷ elements vs

  abbrev pub pairs : Fields F → List (Value F × Value F)
  pairs end = []
  pairs (field k v fs) = (k, v) ∷ pairs fs

  abbrev pub is_key : Text → Value F → Bool
  is_key k (str s) = text_eq s k
  is_key k _ = false

  -- `d.get(k)` for a text `k`
  unfoldable pub get : Text → Fields F → Option (Value F)
  get k end = none
  get k (field j v fs) = if is_key k j then some v else get k fs

  -- The fields of a `dict`; its methods are no attributes of another value.
  abbrev pub as_mapping : {E : Type 0} → Value F → Result E (Fields F)
  as_mapping (mapping fs) = ok fs
  as_mapping _ = raised attribute_error

  -- What `for x in v` goes through.
  abbrev pub iterate : {E : Type 0} → Value F → Result E (List (Value F))
  iterate (sequence vs) = ok (elements vs)
  iterate (mapping fs) = ok (map (λ e. e.0) (pairs fs))
  iterate (str s) = ok (map (λ c. str (c ∷ [])) s)
  iterate _ = raised type_error

  abbrev pub to_text : Conversions F → Value F → Text
  to_text c (str s) = s
  to_text c v = c.show v

module _ {F : Type 0} ⦃d : Float F⦄ where
  abbrev pub is_truthy : Value F → Bool
  is_truthy null = false
  is_truthy (boolean b) = b
  is_truthy (int (pos n)) = not (n == 0)
  is_truthy (int (negsuc n)) = true
  is_truthy (float x) = not (eq_by d.le x (num 0))
  is_truthy (str []) = false
  is_truthy (str (c ∷ s)) = true
  is_truthy (sequence nil) = false
  is_truthy (sequence (cons v vs)) = true
  is_truthy (mapping end) = false
  is_truthy (mapping (field k v fs)) = true

  -- `d.get(k, e) or e` for an empty `e`
  abbrev pub get_or_empty : Text → Fields F → Value F → Value F
  get_or_empty k fs e = let v = or_else (get k fs) e in if is_truthy v then v else e

  abbrev pub to_int : {E : Type 0} → Conversions F → Value F → Result E ℤ
  to_int c (int i) = ok i
  to_int c (boolean b) = ok (if b then pos 1 else pos 0)
  to_int c (float x) = or_raise (c.float_int x) value_error
  to_int c (str s) = or_raise (c.text_int s) value_error
  to_int c _ = raised type_error

  abbrev pub to_float : {E : Type 0} → Conversions F → Value F → Result E F
  to_float c (float x) = ok x
  to_float c (int i) = ok (d.of_int i)
  to_float c (boolean b) = ok (if b then num 1 else num 0)
  to_float c (str s) = or_raise (c.text_float s) value_error
  to_float c _ = raised type_error

pub bind_ok :
    {E A B : Type 0} (m : Result E A) (f : A → Result E B) {b : B}
    → (m >>= f) ≡ ok b
    → (a : A) × (m ≡ ok a) × (f a ≡ ok b)
bind_ok (ok a) f h = (a, refl, h)
bind_ok (failed e) f h = cc
bind_ok (raised e) f h = cc

pub ok_injective : {E A : Type 0} (a b : A) → ◌≡◌ {A = Result E A} (ok a) (ok b) → a ≡ b
ok_injective a b h = cc

pub guard_ok :
    {E A : Type 0} (b : Bool) (e : E) (m : Result E A) {a : A}
    → (guard b e >> m) ≡ ok a
    → (b ≡ true) × (m ≡ ok a)
guard_ok true e m h = (refl, h)
guard_ok false e m h = cc

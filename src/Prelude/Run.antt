-- ===== src/Prelude/Run.antt =====
-- How a call ends: with a value, by an access outside of a block, or with the model's fuel used up.
use mathlib.Core.Path.{◌≡◌, refl, subst}
use mathlib.Core.Bool.{Bool, true, false}
use loopy.Prelude.Tests.{if◌then◌else◌}

pub data Run {u} (Value : Type u) : Type u where
  fault : Run Value
  out_of_fuel : Run Value
  ok : Value → Run Value

-- `Returns Post r`: the call `r` returns, with a value of which `Post` holds.
pub data Returns {u v} {Value : Type u} (Post : Value → Type v) : Run Value → Type (u ⊔ v) where
  returns : {value : Value} → Post value → Returns Post (ok value)

pub ok-injective {u} : {Value : Type u} {x y : Value} → ok x ≡ ok y → x ≡ y
ok-injective e = cc

module _ {u v} {Value : Type u} where
  infixl 5 ◌>>=◌
  abbrev pub ◌>>=◌ : {Next : Type v} → Run Value → (Value → Run Next) → Run Next
  fault >>= rest = fault
  out_of_fuel >>= rest = out_of_fuel
  ok value >>= rest = rest value

  -- The value itself.
  pub Returns-value :
      {Post : Value → Type v} {call : Run Value}
      → Returns Post call
      → (value : Value) × (call ≡ ok value) × Post value
  Returns-value (returns {value} holds) = (value, refl, holds)

  pub Returns-of :
      {Post : Value → Type v} {call : Run Value} {value : Value}
      → Returns Post call
      → call ≡ ok value
      → Post value
  Returns-of {Post} (returns holds) e = subst Post (ok-injective e) holds

  pub Returns-if :
      {Post : Value → Type v} {yes no : Run Value} (test : Bool)
      → (test ≡ true → Returns Post yes)
      → (test ≡ false → Returns Post no)
      → Returns Post (if test then yes else no)
  Returns-if true on_yes on_no = on_yes refl
  Returns-if false on_yes on_no = on_no refl

not_fault {u v} : {Value : Type u} {Post : Value → Type v} → Returns Post fault → ⊥
not_fault r = let (value, e, _) = Returns-value r in cc

not_out_of_fuel {u v} : {Value : Type u} {Post : Value → Type v} → Returns Post out_of_fuel → ⊥
not_out_of_fuel r = let (value, e, _) = Returns-value r in cc

-- A weaker condition, and a call that goes on with the value.
module _ {u v w} {Value : Type u} {Post : Value → Type v} where
  pub Returns-map :
      {Weaker : Value → Type w} {call : Run Value}
      → Returns Post call
      → ((value : Value) → Post value → Weaker value)
      → Returns Weaker call
  Returns-map (returns holds) weaken = returns (weaken _ holds)

  pub Returns-bind {x} :
      {Next : Type w} {After : Next → Type x} {call : Run Value} {rest : Value → Run Next}
      → Returns Post call
      → ((value : Value) → Post value → Returns After (rest value))
      → Returns After (call >>= rest)
  Returns-bind (returns holds) go_on = go_on _ holds

-- The two halves of a call that returns.
pub Returns-unbind {u v w} :
    {Value : Type u} {Next : Type w} {After : Next → Type v} (call : Run Value)
    {rest : Value → Run Next}
    → Returns After (call >>= rest)
    → (value : Value) × (call ≡ ok value) × Returns After (rest value)
Returns-unbind (ok value) r = (value, refl, r)
Returns-unbind fault r = absurd (not_fault r)
Returns-unbind out_of_fuel r = absurd (not_out_of_fuel r)

-- ===== src/Common/Values.antt =====
-- JavaScript values of type `unknown`, as far as the code looks into them. Numbers are naturals
-- here: no code that is modelled computes with a number that it receives.
use Prim.Native.Nat.{ℕ}
use Prim.Native.String.{String}
use mathlib.Core.Bool.{Bool, true, false, not}
use graphqlade.Common.Tests.{if◌then◌else◌, nat_beq}
use graphqlade.Common.Equality.{◌===◌, string_eq}

mutual
  pub data Value : Type 0 where
    undefined null : Value
    str : String → Value
    num : ℕ → Value
    bool : Bool → Value
    obj : Fields → Value
    arr : Items → Value

  pub data Fields : Type 0 where
    field : String → Value → Fields → Fields
    end : Fields

  pub data Items : Type 0 where
    item : Value → Items → Items
    no_items : Items

-- `o[name]`; `undefined` where the property is missing.
unfoldable pub prop : String → Fields → Value
prop name end = undefined
prop name (field k v fs) = if k === name then v else prop name fs

-- `!!v`
unfoldable pub truthy : Value → Bool
truthy undefined = false
truthy null = false
truthy (bool b) = b
truthy (num n) = not (nat_beq n 0)
truthy (str s) = not (s === "")
truthy (arr vs) = true
truthy (obj fs) = true

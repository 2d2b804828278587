-- ===== src/Model/Template.antt =====
-- What a template literal `${v}` makes of a value.
use finalbuilds.Prelude.{ℕ, zero, suc, String, true, false, ltb, if◌then◌else◌}
use Prim.Native.Nat.{◌/◌, ◌%◌}
use finalbuilds.Prelude.Int.{pos, negsuc}
use finalbuilds.Prelude.Text.{◌<+>◌}
use finalbuilds.Model.Value.{Value, Items, undefined, null, bool, num, str, arr, obj, nil, cons}

abbrev digit : ℕ → String
digit zero = "0"
digit (suc zero) = "1"
digit (suc (suc zero)) = "2"
digit (suc (suc (suc zero))) = "3"
digit (suc (suc (suc (suc zero)))) = "4"
digit (suc (suc (suc (suc (suc zero))))) = "5"
digit (suc (suc (suc (suc (suc (suc zero)))))) = "6"
digit (suc (suc (suc (suc (suc (suc (suc zero))))))) = "7"
digit (suc (suc (suc (suc (suc (suc (suc (suc zero)))))))) = "8"
digit _ = "9"

-- The fuel is the number itself, which no number's count of digits passes.
decimal_from : ℕ → ℕ → String
decimal_from zero n = digit (n % 10)
decimal_from (suc fuel) n =
    let more = decimal_from fuel (n / 10) in if ltb n 10 then digit n else more <+> digit (n % 10)

unfoldable pub decimal : ℕ → String
unfolding decimal_from
decimal n = decimal_from n n

-- An empty place of an array joins as the empty text.
abbrev blank : Value → String → String
blank undefined s = ""
blank null s = ""
blank v s = s

unfoldable mutual
  unfolding decimal

  pub template : Value → String
  template undefined = "undefined"
  template null = "null"
  template (bool true) = "true"
  template (bool false) = "false"
  template (num (pos n)) = decimal n
  template (num (negsuc n)) = "-" <+> decimal (suc n)
  template (str s) = s
  template (arr xs) = join_items xs
  template (obj fs) = "[object Object]"

  pub join_items : Items → String
  join_items nil = ""
  join_items (cons v nil) = blank v (template v)
  join_items (cons v (cons w xs)) = blank v (template v) <+> ("," <+> join_items (cons w xs))

-- ===== src/Prelude/Json.antt =====
-- JSON values, and what the program does with a value of unknown shape. Texts are kept parsed:
-- `JSON.stringify` and `JSON.parse` between the parts of the program are inverse to one another.
use Prim.Native.String.{String}
use mathlib.Core.Bool.{Bool, true, false}
use mathlib.Core.Option.{Option, none, some}
use umbra_gateway.Prelude.Tests.{Result, ok, err, if◌then◌else◌}
use umbra_gateway.Prelude.Int.{ℤ}
use umbra_gateway.Prelude.Text.{◌===◌, show_ℤ, append}

mutual
  pub data Json : Type 0 where
    null : Json
    bool : Bool → Json
    num : ℤ → Json
    str : String → Json
    arr : Items → Json
    obj : Fields → Json

  pub data Items : Type 0 where
    nil : Items
    cons : Json → Items → Items

  pub data Fields : Type 0 where
    end : Fields
    field : String → Json → Fields → Fields

-- `none` for `undefined`
unfoldable pub find : String → Fields → Option Json
find name end = none
find name (field key value rest) = if key === name then some value else find name rest

-- value.name: the TypeError at `null`, `undefined` at a value that has no such property
unfoldable pub property : String → Json → Result (Option Json)
unfolding find
property name null = err (append "Cannot read properties of null (reading '" (append name "')"))
property name (obj fields) = ok (find name fields)
property name _ = ok none

-- `value.name ?? null`, as JSON
abbrev pub or_null : Option Json → Json
or_null none = null
or_null (some value) = value

-- String(value), as a template literal converts it
unfoldable mutual
  unfolding show_ℤ

  pub display : Json → String
  display null = "null"
  display (bool true) = "true"
  display (bool false) = "false"
  display (num n) = show_ℤ n
  display (str s) = s
  display (arr items) = display_items items
  display (obj fields) = "[object Object]"

  -- elements are joined by commas, and `null` is empty
  pub display_items : Items → String
  display_items nil = ""
  display_items (cons value rest) = append (display_item value) (display_rest rest)

  pub display_rest : Items → String
  display_rest nil = ""
  display_rest (cons value rest) = append "," (append (display_item value) (display_rest rest))

  pub display_item : Json → String
  display_item null = ""
  display_item (bool true) = "true"
  display_item (bool false) = "false"
  display_item (num n) = show_ℤ n
  display_item (str s) = s
  display_item (arr items) = display_items items
  display_item (obj fields) = "[object Object]"

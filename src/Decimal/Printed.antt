-- ===== src/Decimal/Printed.antt =====
-- The string of a text, for the descriptions that document numbers stand in.
use Prim.Native.String.{String, slice, ◌++◌}
use erp_fashion_api.Common.{◌-◌, [], ◌∷◌}
use erp_fashion_api.Decimal.{Text}

abbrev printable : String
printable =
    " !\"#$%&'()*+,-./0123456789:;<=>?@ABCDEFGHIJKLMNOPQRSTUVWXYZ[\\]^_`abcdefghijklmnopqrstuvwxyz{|}~"

-- The string of a text, each character being a printable one of ASCII.
unfoldable pub to_string : Text → String
to_string [] = ""
to_string (c ∷ cs) = slice printable (c - 32) (c - 31) ++ to_string cs

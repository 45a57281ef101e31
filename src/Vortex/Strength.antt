-- ===== src/Vortex/Strength.antt =====
-- manipvortex/utils.go: whether a read or a write is strong. The context decides, unless it has the
-- default consistency, then the processor, likewise, then the manipulator.
use manipulate.Prelude.{Bool, true, false, Option, none, some}
use manipulate.Context.{Types, Context, ReadConsistency, WriteConsistency}

abbrev strong_read : ReadConsistency → Bool
strong_read ReadConsistency.strong = true
strong_read _ = false

abbrev strong_write : WriteConsistency → Bool
strong_write WriteConsistency.strong = true
strong_write WriteConsistency.strongest = true
strong_write _ = false

-- A consistency of `none` is that of a nil context or processor.
abbrev read_or_else : Option ReadConsistency → Bool → Bool
read_or_else none rest = rest
read_or_else (some ReadConsistency.default) rest = rest
read_or_else (some c) rest = strong_read c

abbrev write_or_else : Option WriteConsistency → Bool → Bool
write_or_else none rest = rest
write_or_else (some WriteConsistency.default) rest = rest
write_or_else (some c) rest = strong_write c

abbrev pub read_consistency_of : {T : Types} → Option (Context T) → Option ReadConsistency
read_consistency_of none = none
read_consistency_of (some mctx) = some mctx.read_consistency

abbrev write_consistency_of : {T : Types} → Option (Context T) → Option WriteConsistency
write_consistency_of none = none
write_consistency_of (some mctx) = some mctx.write_consistency

-- The processor is given by its consistency, or is nil.
unfoldable pub is_strong_read_consistency :
    {T : Types} → Option (Context T) → Option ReadConsistency → ReadConsistency → Bool
is_strong_read_consistency mctx processor default_consistency =
    read_or_else (read_consistency_of mctx)
      (read_or_else processor (strong_read default_consistency))

unfoldable pub is_strong_write_consistency :
    {T : Types} → Option (Context T) → Option WriteConsistency → WriteConsistency → Bool
is_strong_write_consistency mctx processor default_consistency =
    write_or_else (write_consistency_of mctx)
      (write_or_else processor (strong_write default_consistency))

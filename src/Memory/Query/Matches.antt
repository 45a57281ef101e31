-- ===== src/Memory/Query/Matches.antt =====
-- A matches comparison that does not open its query: the map for each of its values starts empty
-- and is intersected with itself, so that nothing is merged.
use manipulate.Prelude.Dict.{Dict}

-- ===== src/Vocab.antt =====
-- The converter of bench/convert_tm_to_ztm.py, from TokenMonster's `.vocab` file to ztok's `.ztm`,
-- and the reader of `.ztm` in src/monster_io.zig.
mod Wire
mod Runes
mod Ztm
mod Alts
mod Reader
mod Records
mod Layout
mod Roundtrip
mod Tm
mod Primaries
mod Aliases
mod Ladder
mod Prefixes
mod Found
mod Words
mod Plain
mod InRange
mod Totality
mod Range
mod Twins
mod Total
mod Examples

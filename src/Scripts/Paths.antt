-- ===== src/Scripts/Paths.antt =====
-- tools/update_path.py: the lines of snapcraft.yaml that set PATH and LD_LIBRARY_PATH.
pub mod Again
use microstack.Base.{String, ◌<>◌, none, some, List, [], ◌∷◌, map, readlines, if◌then◌else◌}
use microstack.Machine.{Host, read, wrote, after_event, system_exit}
use microstack.Machine.Monad.{ok, raised, Action}
use text.Mathlib.Text.{starts_with}

abbrev pub libs : String
libs =
    "$SNAP/lib:$SNAP/lib/$SNAPCRAFT_ARCH_TRIPLET:$SNAP/usr/lib:$SNAP/usr/lib/$SNAPCRAFT_ARCH_TRIPLET:$SNAP/usr/lib/$SNAPCRAFT_ARCH_TRIPLET/pulseaudio"

abbrev pub path : String
path = "$SNAP/usr/sbin:$SNAP/usr/bin:$SNAP/sbin:$SNAP/bin:$PATH"

-- The two tests of the loop, in their order.
unfoldable pub with_libs : String → String
with_libs line =
    if starts_with line "  LD_LIBRARY_PATH: " then "  LD_LIBRARY_PATH: " <> (libs <> "\n") else line

unfoldable pub with_path : String → String
with_path line = if starts_with line "  PATH: " then "  PATH: " <> (path <> "\n") else line

unfoldable pub update_line : String → String
unfolding with_libs with_path
update_line line = with_path (with_libs line)

-- The texts that are written, one after the other.
unfoldable pub write_lines : List String → String
write_lines [] = ""
write_lines (line ∷ lines) = line <> write_lines lines

-- The text of the new snapcraft.yaml.
unfoldable pub updated : String → String
unfolding update_line write_lines
updated source = write_lines (map update_line (readlines source))

-- `main`, with the text that is in snapcraft.yaml at the end.
unfoldable pub main : Host → Action String
unfolding updated
main h w = elim (h.content w.log "./snapcraft.yaml") [
  | none ↦ (raised (system_exit 1), w)
  | some source ↦ (
    ok (updated source),
    after_event (wrote "./snapcraft.yaml")
        (after_event (wrote "./snapcraft.yaml.updated") (after_event (read "./snapcraft.yaml") w)),
  )
]

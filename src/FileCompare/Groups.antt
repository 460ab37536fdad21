-- ===== src/FileCompare/Groups.antt =====
-- The groups of files that `compare_files` finds.
use public_trash.Base.{if◌then◌else◌, List, [], ◌∷◌, Option, none, some, Result, ok, raise}
use public_trash.Base.Texts.{Text, text_eq}
use public_trash.FileCompare.{Load, normalize_file_content}
use public_trash.FileCompare.Entries.{add_new, each}

-- Each file that can be read, as its normalised text and its path.
abbrev pub Read : Type 0
Read = Text × Text

abbrev and_read : Text → Result (Option Text) → List Read → List Read
and_read path (ok (some content)) rest = (content, path) ∷ rest
and_read path (ok none) rest = rest
and_read path (raise e) rest = rest

abbrev pub read_files : Load → List Text → List Read
read_files load [] = []
read_files load (path ∷ paths) =
    and_read path (normalize_file_content load path) (read_files load paths)

-- The paths with this text, in order.
abbrev pub group : List Read → Text → List Text
group [] content = []
group ((c, path) ∷ rest) content =
    if text_eq c content then path ∷ group rest content else group rest content

-- The texts, each where it comes first.
abbrev pub contents : List Text → List Read → List Text
contents seen [] = seen
contents seen ((c, _) ∷ rest) = contents (add_new c seen) rest

-- The files in groups of the same text.
abbrev pub groups : List Read → List (List Text)
groups read = each (group read) (contents [] read)

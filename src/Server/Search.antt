-- ===== src/Server/Search.antt =====
-- The search of `bootstrap_capio_server` (include/_libcapio_impl.hpp) for the executable, and the
-- entries of PATH.
use py_capio.Base.{
  Option, none, if◌then◌else◌, filesystem_error, ◌≡◌, ◌⊎◌, inl, inr, refl, ap, ◌∙◌, Bytes, Bool,
  true, false, ◌&&◌, not, some, List, [], ◌∷◌, ◌++◌, is_empty, codes, arith,
}
use py_capio.FsPath.{contains, append_path}
use py_capio.Server.{
  Resolved, found, fails, History, Host, Process, capio_server, getenv, path_items, search_path,
  resolve,
}

-- No directory holds the separator.
abbrev pub is_plain : List Bytes → Bool
is_plain [] = true
is_plain (d ∷ ds) = not (contains b':' d) && is_plain ds

-- The text of PATH: the directories, each with a colon behind it, and the last one.
abbrev pub path_text : List Bytes → Bytes → Bytes
path_text [] last = last
path_text (d ∷ ds) last = d ++ (b':' ∷ path_text ds last)

path_items-colon :
    (d s : Bytes) → contains b':' d ≡ false → path_items (d ++ (b':' ∷ s)) ≡ d ∷ path_items s
unfolding path_items
path_items-colon [] s h = refl
path_items-colon (c ∷ d) s h =
    let e : path_items (d ++ (b':' ∷ s)) ≡ d ∷ path_items s = path_items-colon d s (ground arith) in
    ground (arith, e)

path_items-last : (d : Bytes) → contains b':' d ≡ false → is_empty d ≡ false → path_items d ≡ d ∷ []
unfolding path_items
path_items-last [] h ne = cc
path_items-last (c ∷ []) h ne = ground arith
path_items-last (c ∷ b ∷ d) h ne =
    let e : path_items (b ∷ d) ≡ (b ∷ d) ∷ [] = path_items-last (b ∷ d) (ground arith) refl in
    ground (arith, e)

pub path_items-path_text :
    (ds : List Bytes) (last : Bytes)
    → is_plain (last ∷ ds) ≡ true
    → is_empty last ≡ false
    → path_items (path_text ds last) ≡ ds ++ (last ∷ [])
path_items-path_text [] last h ne = path_items-last last (ground arith) ne
path_items-path_text (d ∷ ds) last h ne =
    path_items-colon d (path_text ds last) (ground arith)
    ∙ ap (λ l. d ∷ l) (path_items-path_text ds last (ground arith) ne)

module _ (H : Host) (h : History) (name : Bytes) where
  -- None of the directories has the executable.
  abbrev pub AllMissing : List Bytes → Type 0
  AllMissing [] = Unit
  AllMissing (d ∷ ds) = (H.file_exists h (append_path d name) ≡ some false) × AllMissing ds

  -- The first directory whose test answers otherwise.
  abbrev pub StopsAt : List Bytes → Bytes → Option Bool → Type 0
  StopsAt ds d seen =
      (before : List Bytes) × (after : List Bytes) × (ds ≡ before ++ (d ∷ after))
      × AllMissing before
      × (H.file_exists h (append_path d name) ≡ seen)

  -- The name as it is where all directories lack it, the path in the first that has it, or the
  -- exception of the first test that raises.
  abbrev pub IsFirst : List Bytes → Resolved → Type 0
  IsFirst ds r =
      (AllMissing ds × (r ≡ found name))
      ⊎ ((d : Bytes) × StopsAt ds d (some true) × (r ≡ found (append_path d name)))
      ⊎ ((d : Bytes) × StopsAt ds d none × (r ≡ fails filesystem_error))

  abbrev resolved : Option Bytes → Resolved
  resolved none = fails filesystem_error
  resolved (some path) = found path

  search_path-IsFirst : (ds : List Bytes) → IsFirst ds (resolved (search_path H h name ds))
  unfolding search_path
  search_path-IsFirst [] = inl (tt, refl)
  search_path-IsFirst (d ∷ ds) =
      go (H.file_exists h (append_path d name)) refl (search_path-IsFirst ds)
    where
      later :
          (e : Bytes) (seen : Option Bool)
          → H.file_exists h (append_path d name) ≡ some false
          → StopsAt ds e seen
          → StopsAt (d ∷ ds) e seen
      later e seen gone (before, after, split, all, there) =
          (d ∷ before, after, ap (λ l. d ∷ l) split, (gone, all), there)

      go :
          (o : Option Bool)
          → H.file_exists h (append_path d name) ≡ o
          → IsFirst ds (resolved (search_path H h name ds))
          → IsFirst (d ∷ ds) (
              resolved (elim o [
                | none ↦ none
                | some there ↦ if there then some (append_path d name) else search_path H h name ds
              ]))
      go none e rest = inr (inr (d, ([], ds, refl, tt, e), refl))
      go (some true) e rest = inr (inl (d, ([], ds, refl, tt, e), refl))
      go (some false) e (inl (all, same)) = inl ((e, all), same)
      go (some false) e (inr (inl (d', s, same))) = inr (inl (d', later d' (some true) e s, same))
      go (some false) e (inr (inr (d', s, same))) = inr (inr (d', later d' none e s, same))

-- Where the executable is given as "capio_server" and PATH lists directories without a colon in
-- them, the last one not empty: it is taken from the first directory that has it, where the test of
-- every directory in front of it answers no; where the test of a directory raises before that, its
-- `filesystem_error` is the end of the search; where no directory has it the name is left as it is.
pub resolve-IsFirst :
    (H : Host) (p : Process) (ds : List Bytes) (last : Bytes)
    → getenv (codes "PATH") p.environ ≡ some (path_text ds last)
    → is_plain (last ∷ ds) ≡ true
    → is_empty last ≡ false
    → IsFirst H p.history capio_server (ds ++ (last ∷ [])) (resolve H capio_server p)
unfolding resolve
resolve-IsFirst H p ds last set plain ne =
    rw (set, path_items-path_text ds last plain ne)
      (again (search_path H p.history capio_server (ds ++ (last ∷ [])))
        (search_path-IsFirst H p.history capio_server (ds ++ (last ∷ []))))
  where
    again :
        (o : Option Bytes)
        → IsFirst H p.history capio_server (ds ++ (last ∷ [])) (resolved H p.history capio_server o)
        → IsFirst H p.history capio_server
            (ds ++ (last ∷ []))
            (elim o [ none ↦ fails filesystem_error | some r ↦ found r ])
    again none v = v
    again (some r) v = v

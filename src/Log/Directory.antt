-- ===== src/Log/Directory.antt =====
-- The directories of the files that src/log.cpp logs to.
use cxx_util.Prelude.{
  ◌<◌, ◌≡◌, refl, sym, ap, ◌∙◌, Bool, true, false, false≢true, [], ◌∷◌, ◌++◌, Option, none, some,
  length, lt→ltb, if◌then◌else◌,
}
use cxx_util.Log.{
  Text, Sink, file, Core, returned, threw, Filesystem, add_sink, after_create, in_directory,
  in_parent, init_file_sink,
}

module _ {S : Type 0} where
  returned-injective : {a b : Core S} → returned a ≡ returned b → a ≡ b
  returned-injective {a} q = ap (λ o. elim o [ returned x ↦ x | threw x ↦ a ]) q

  threw≢returned : {a b : Core S} → threw a ≡ returned b → ⊥
  threw≢returned q = false≢true (ap (λ o. elim o [ returned x ↦ true | threw x ↦ false ]) q)

module _ {S : Type 0} (fs : Filesystem S) where
  -- A canonical path of the parent, which is a directory now, and a sink more.
  abbrev InDirectory : Sink → Core S → Core S → Option Text → Type 0
  InDirectory s core c o =
      (parent : Text) × (o ≡ some parent)
      × (fs.is_directory c.files parent ≡ true)
      × (c.sinks ≡ core.sinks ++ (s ∷ []))

  added-InDirectory :
      (s : Sink) (core before c : Core S) (parent : Text)
      → before.sinks ≡ core.sinks
      → fs.is_directory before.files parent ≡ true
      → returned (add_sink s before) ≡ returned c
      → InDirectory s core c (some parent)
  added-InDirectory s core before c parent e d q = (
    parent,
    refl,
    ap (λ x. fs.is_directory x.files parent) (sym (returned-injective q)) ∙ d,
    ap (λ x. x.sinks) (sym (returned-injective q)) ∙ ap (λ l. l ++ (s ∷ [])) e,
  )

  after_create-InDirectory :
      (s : Sink) (core c : Core S) (parent : Text) (r : Bool × S)
      → (r.0 ≡ true → fs.is_directory r.1 parent ≡ true)
      → after_create fs s core r ≡ returned c
      → InDirectory s core c (some parent)
  after_create-InDirectory s core c parent (true, files) d q =
      added-InDirectory s core (record core { files = files }) c parent refl (d refl) q
  after_create-InDirectory s core c parent (false, files) d q = absurd (threw≢returned q)

  in_directory-InDirectory :
      (s : Sink) (core c : Core S) (parent : Text)
      → ((fs.create_directories core.files parent).0 ≡ true
          → fs.is_directory (fs.create_directories core.files parent).1 parent ≡ true)
      → in_directory fs s core parent ≡ returned c
      → InDirectory s core c (some parent)
  in_directory-InDirectory s core c parent made =
      by_tests (fs.exists core.files parent) (fs.is_directory core.files parent) refl
    where
      by_tests :
          (b d : Bool)
          → fs.is_directory core.files parent ≡ d
          → (if b
              then if d then returned (add_sink s core) else threw core
              else after_create fs s core (fs.create_directories core.files parent))
            ≡ returned c
          → InDirectory s core c (some parent)
      by_tests true true u q = added-InDirectory s core core c parent refl u q
      by_tests true false u q = absurd (threw≢returned q)
      by_tests false d u q =
          after_create-InDirectory s core c parent (fs.create_directories core.files parent) made q

  -- A file's sink is added only when the parent's path, made canonical, is that of a directory in the
  -- files as the notifier leaves them, if `create_directories` makes a directory whenever it returns.
  pub file_sink-is_directory :
      (made : (f : S) (p : Text)
        → (fs.create_directories f p).0 ≡ true
        → fs.is_directory (fs.create_directories f p).1 p ≡ true)
      (path : Text) (core c : Core S)
      → 0 < length path
      → init_file_sink fs path core ≡ returned c
      → (parent : Text) × (fs.weakly_canonical core.files (fs.parent_path (fs.absolute path))
          ≡ some parent)
        × (fs.is_directory c.files parent ≡ true)
        × (c.sinks ≡ core.sinks ++ (file (fs.absolute path) ∷ []))
  unfolding init_file_sink
  file_sink-is_directory made path core c h e =
      by_canonical (fs.weakly_canonical core.files (fs.parent_path (fs.absolute path)))
        (sym (rw (lt→ltb 0 (length path) h) refl) ∙ e)
    where
      by_canonical :
          (o : Option Text)
          → in_parent fs (file (fs.absolute path)) core o ≡ returned c
          → InDirectory (file (fs.absolute path)) core c o
      by_canonical none q = absurd (threw≢returned q)
      by_canonical (some parent) q =
          in_directory-InDirectory (file (fs.absolute path)) core c parent (made core.files parent)
            q

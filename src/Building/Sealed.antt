-- ===== src/Building/Sealed.antt =====
-- What a student's submission can bring into the directory of a function-only problem.
use sandbox_2025team.Dict.Laws.{lookup-delete, lookup-insert_self, lookup-insert_ne}
use sandbox_2025team.Base.{
  ◌≡◌, Option, none, List, [], ◌⊎◌, if◌then◌else◌, ◌∷◌, false, arith, true, some, ap, refl, ◌≢◌,
  inl, Option-cases, inr, Bool-cases, ◌∙◌, sym,
}
use sandbox_2025team.Meta.{Language, Meta}
use sandbox_2025team.Dict.{lookup, keys, insert, delete}
use sandbox_2025team.Base.Text.{Text, one_of, text_eq, text_eq_refl, text_eq_iff, codes}
use sandbox_2025team.Artifacts.{Bytes}
use sandbox_2025team.Building.{
  built, reset_directory, Built, remove_children, write, remove_child, Directory, Archive, unlink,
  rmtree, Entry, template_name, Member, Fault, unbuilt, extract_member, extract_all, Plan,
  prepare_function_only_submission, make_plan, fetched, student_entry, non_empty,
}

Built-cases :
    {A : Type 0} (r : Built A) → ((a : A) × (r ≡ built a)) ⊎ ((e : Fault) × (r ≡ unbuilt e))
Built-cases (built a) = inl (a, refl)
Built-cases (unbuilt e) = inr (e, refl)

write-built :
    (name : Text) (bytes : Bytes) (dir after : Directory)
    → write name bytes dir ≡ built after
    → (e : Entry) × (after ≡ insert name e dir) × (e.bytes ≡ bytes) × (e.is_file ≡ true)
unfolding write
write-built name bytes dir after h = elim (Option-cases (lookup name dir)) [
  | inl new ↦ (
    record { is_file = true; executable = false; bytes = bytes },
    ground (arith, h, new),
    refl,
    refl,
  )
  | inr (e, there) ↦ (
    record e { bytes = bytes },
    ground (arith, h, there, Bool-cases e.is_file),
    refl,
    ground (arith, h, there, Bool-cases e.is_file),
  )
]

remove_child-lookup :
    (child : Text) (dir : Directory)
    → (fewer : Directory) × (remove_child child dir ≡ built fewer)
      × ((name : Text) → lookup name fewer ≡ (if text_eq child name then none else lookup name dir))
unfolding remove_child unlink rmtree
remove_child-lookup child dir = elim (Option-cases (lookup child dir)) [
  | inl gone ↦ (dir, rw (gone, remove_child), λ name. ground (arith, gone, text_eq_iff child name))
  | inr (e, there) ↦ (
    delete child dir,
    ground (arith, there, Bool-cases e.is_file),
    λ name. lookup-delete child name dir,
  )
]

no_entries : (dir : Directory) → ((name : Text) → lookup name dir ≡ none) → dir ≡ []
unfolding lookup
no_entries [] h = refl
no_entries ((k, e) ∷ dir) h = absurd (let found = h k in ground (arith, found, text_eq_refl k))

remove_children-all :
    (children : List Text) (dir : Directory)
    → ((name : Text) → one_of name children ≡ false → lookup name dir ≡ none)
    → remove_children children dir ≡ built []
unfolding remove_children one_of
remove_children-all [] dir h = ap built (no_entries dir (λ name. h name refl))
remove_children-all (child ∷ children) dir h =
    let (fewer, removed, left) = remove_child-lookup child dir in
    let rest = remove_children-all children fewer (λ name out.
      elim (Bool-cases (text_eq child name)) [
        | inl same ↦ ground (arith, left name, same)
        | inr other ↦
            ground (arith, left name, other, h name, text_eq_iff name child, text_eq_iff child name)
      ]) in
    rw (removed, remove_children) rest

lookup-keys :
    (name : Text) (dir : Directory) → one_of name (keys dir) ≡ false → lookup name dir ≡ none
unfolding lookup one_of
lookup-keys name [] h = refl
lookup-keys name ((k, e) ∷ dir) h =
    ground (arith, h, lookup-keys name dir, text_eq_iff name k, text_eq_iff k name)

-- Nothing is left of a directory that is reset.
reset_directory_lem : (dir : Directory) → reset_directory dir ≡ built []
unfolding reset_directory
reset_directory_lem dir = remove_children-all (keys dir) dir (λ name out. lookup-keys name dir out)

-- The last member of an archive by its name.
abbrev pub last_member : Text → Archive → Option Member
last_member name [] = none
last_member name ((k, member) ∷ members) = elim (last_member name members) [
  | none ↦ if text_eq k name then some member else none
  | some later ↦ some later
]

-- The directory of a function-only submission: the template with the student's code, and for each
-- other name what the archive has.
pub record IsSealed (code : Bytes) (language : Language) (archive : Archive) (after : Directory)
    : Type 0 where
  pub template : Entry
  pub student :
      (lookup (template_name language) after ≡ some template)
      × (template.bytes ≡ code)
      × (template.is_file ≡ true)
  pub absent :
      (name : Text)
      → name ≢ template_name language
      → last_member name archive ≡ none
      → lookup name after ≡ none
  pub unpacked :
      (name : Text) (member : Member)
      → name ≢ template_name language
      → last_member name archive ≡ some member
      → member.is_dir ≡ false
      → (e : Entry) × (lookup name after ≡ some e) × (e.bytes ≡ member.bytes) × (e.is_file ≡ true)

extract_member_other :
    (name : Text) (member : Member) (dir after : Directory) (other : Text)
    → name ≢ other
    → extract_member name member dir ≡ built after
    → lookup other after ≡ lookup other dir
unfolding extract_member
extract_member_other name member dir after other ne h = elim (Bool-cases member.is_dir) [
  | inl folder ↦ elim (Option-cases (lookup name dir)) [
    | inl new ↦
        let made : insert name (record { is_file = false; executable = false; bytes = [] }) dir
            ≡ after =
          ground (arith, h, folder, new) in
        sym (ap (lookup other) made)
        ∙ lookup-insert_ne name other (record { is_file = false; executable = false; bytes = [] })
            dir ne
    | inr (e, there) ↦
        let same : dir ≡ after = ground (arith, h, folder, there, Bool-cases e.is_file) in
        sym (ap (lookup other) same)
  ]
  | inr file ↦
      let put : write name member.bytes dir ≡ built after = ground (arith, h, file) in
      let (e, made, held, filed) = write-built name member.bytes dir after put in
      ap (lookup other) made ∙ lookup-insert_ne name other e dir ne
]

extract_member_self :
    (name : Text) (member : Member) (dir after : Directory)
    → member.is_dir ≡ false
    → extract_member name member dir ≡ built after
    → (e : Entry) × (lookup name after ≡ some e) × (e.bytes ≡ member.bytes) × (e.is_file ≡ true)
unfolding extract_member
extract_member_self name member dir after file h =
    let put : write name member.bytes dir ≡ built after = ground (arith, h, file) in
    let (e, made, held, filed) = write-built name member.bytes dir after put in
    (e, ap (lookup name) made ∙ lookup-insert_self name e dir, held, filed)

extract_all-absent :
    (archive : Archive) (dir after : Directory) (name : Text)
    → last_member name archive ≡ none
    → extract_all archive dir ≡ built after
    → lookup name after ≡ lookup name dir
unfolding extract_all
extract_all-absent [] dir after name none_there h =
    let same : dir ≡ after = ground (arith, h) in sym (ap (lookup name) same)
extract_all-absent ((k, member) ∷ members) dir after name none_there h =
    elim (Built-cases (extract_member k member dir)) [
      | inr (e, failed) ↦ absurd (ground (arith, h, failed))
      | inl (next, first) ↦ elim (Option-cases (last_member name members)) [
        | inr (later, found) ↦ absurd (ground (arith, none_there, found))
        | inl gone ↦
            let apart : text_eq k name ≡ false =
              ground (arith, none_there, gone, Bool-cases (text_eq k name)) in
            extract_all-absent members next after name gone (ground (arith, h, first))
            ∙ extract_member_other k member dir next name
                (ground (arith, apart, text_eq_iff k name)) first
      ]
    ]

extract_all-present :
    (archive : Archive) (dir after : Directory) (name : Text) (member : Member)
    → last_member name archive ≡ some member
    → member.is_dir ≡ false
    → extract_all archive dir ≡ built after
    → (e : Entry) × (lookup name after ≡ some e) × (e.bytes ≡ member.bytes) × (e.is_file ≡ true)
unfolding extract_all
extract_all-present [] dir after name member there file h = absurd cc
extract_all-present ((k, first) ∷ members) dir after name member there file h =
    elim (Built-cases (extract_member k first dir)) [
      | inr (e, failed) ↦ absurd (ground (arith, h, failed))
      | inl (next, unpacked) ↦ elim (Option-cases (last_member name members)) [
        | inr (later, found) ↦
            extract_all-present members next after name member
              (let same : some later ≡ some member = ground (arith, there, found) in found ∙ same)
              file (ground (arith, h, unpacked))
        | inl gone ↦
            let same : text_eq k name ≡ true =
              ground (arith, there, gone, Bool-cases (text_eq k name)) in
            let it : first ≡ member = ground (arith, there, gone, same) in
            let here =
              extract_member_self k first dir next (ap (λ (m : Member). m.is_dir) it ∙ file)
                unpacked in
            let kept =
              extract_all-absent members next after name gone (ground (arith, h, unpacked)) in
            (
              here.0,
              kept ∙ (ap (λ n. lookup n next) (sym ((text_eq_iff k name).0 same)) ∙ here.1),
              here.2 ∙ ap (λ (m : Member). m.bytes) it,
              here.3,
            )
      ]
    ]

write-IsSealed :
    (code : Bytes) (language : Language) (archive : Archive) (unpacked after : Directory)
    → extract_all archive [] ≡ built unpacked
    → write (template_name language) code unpacked ≡ built after
    → IsSealed code language archive after
unfolding lookup
write-IsSealed code language archive unpacked after extracted h =
    let (template, put, held, filed) = write-built (template_name language) code unpacked after h in
    let other : (name : Text)
        → name ≢ template_name language
        → lookup name after ≡ lookup name unpacked =
      λ name ne.
        ap (lookup name) put
        ∙ lookup-insert_ne (template_name language) name template unpacked (λ e. ne (sym e)) in
    record {
      template = template;
      student = (
        ap (lookup (template_name language)) put
            ∙ lookup-insert_self (template_name language) template unpacked,
        held,
        filed,
      );
      absent = λ name ne gone.
          other name ne ∙ extract_all-absent archive [] unpacked name gone extracted;
      unpacked = λ name member ne there file.
          let (e, found, bytes, is_file) =
            extract_all-present archive [] unpacked name member there file extracted in
          (e, other name ne ∙ found, bytes, is_file);
    }

module _ (read_text : Bytes → Option Bytes) (meta : Meta) (archive : Archive)
    (dir after : Directory) (plan : Plan) where
  -- If the strategy of function-only problems succeeds, the template of the directory is the
  -- student's code, read as text. For every other name the directory has what the archive of the
  -- problem has: nothing if no member is of that name, and a file with the bytes of the last such
  -- member if this is a file. So no other file of the student is left. make will run.
  pub prepare_function_only-IsSealed :
      prepare_function_only_submission read_text meta (fetched archive) dir ≡ built (plan, after)
      → (student : Entry) × (code : Bytes) × (lookup (student_entry meta.language) dir
          ≡ some student)
        × (read_text student.bytes ≡ some code)
        × IsSealed code meta.language archive after
        × (plan.needs_make ≡ true)
  unfolding prepare_function_only_submission make_plan
  prepare_function_only-IsSealed h =
      let asset = Bool-cases (non_empty (lookup (codes "makefile") meta.asset_paths)) in
      let reset = reset_directory_lem dir in
      elim (Option-cases (lookup (student_entry meta.language) dir)) [
        | inl missing ↦ absurd (ground (arith, h, missing))
        | inr (student, found) ↦
            elim (Option-cases (if student.is_file then read_text student.bytes else none)) [
              | inl unread ↦ absurd (ground (arith, h, found, unread))
              | inr (code, decoded) ↦ elim (Built-cases (extract_all archive [])) [
                | inr (e, failed) ↦ absurd (ground (arith, h, found, decoded, asset, reset, failed))
                | inl (unpacked, extracted) ↦
                    let put : write (template_name meta.language) code unpacked ≡ built after =
                      ground (
                        arith,
                        h,
                        found,
                        decoded,
                        asset,
                        reset,
                        extracted,
                        Built-cases (write (template_name meta.language) code unpacked),
                      ) in
                    (
                      student,
                      code,
                      found,
                      ground (arith, decoded, Bool-cases student.is_file),
                      write-IsSealed code meta.language archive unpacked after extracted put,
                      ground (arith, h, found, decoded, asset, reset, extracted, put),
                    )
              ]
            ]
      ]

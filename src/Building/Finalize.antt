-- ===== src/Building/Finalize.antt =====
-- The directory after make: one executable, by the name that is run.
use sandbox_2025team.Dict.Laws.{lookup-insert, lookup-delete, lookup-insert_self}
use sandbox_2025team.Dict.{lookup, delete}
use sandbox_2025team.Base.{
  true, [], ◌∷◌, none, some, inl, inr, ◌≡◌, ◌≢◌, Bool-cases, arith, is_empty, Option-cases, List,
  sym, refl, ◌↔◌, ap,
}
use sandbox_2025team.Base.Text.{Text, codes, text_eq, text_eq_iff}
use sandbox_2025team.Building.{
  extras, Directory, Entry, is_elf_executable, finalize_binary, replace_binary, unlink, built,
  ensure_single_executable,
}

is_empty-eq {ℓ} : {A : Type ℓ} (xs : List A) → is_empty xs ≡ true → xs ≡ []
is_empty-eq [] h = refl
is_empty-eq (x ∷ xs) h = cc

extras-lookup :
    (allowed : Text) (dir : Directory) (name : Text) (e : Entry)
    → extras allowed dir ≡ []
    → lookup name dir ≡ some e
    → is_elf_executable e ≡ true
    → name ≡ allowed
unfolding extras lookup
extras-lookup allowed [] name e clear found elf = cc
extras-lookup allowed ((k, f) ∷ dir) name e clear found elf = elim (Bool-cases (text_eq k name)) [
  | inl same ↦ ground (arith, text_eq_iff k name, text_eq_iff k allowed)
  | inr apart ↦ ground (arith, extras-lookup allowed dir name e)
]

-- What finalize makes of a directory.
pub record IsFinal (dir after : Directory) : Type 0 where
  pub binary : Entry
  pub found : lookup (codes "a.out") dir ≡ some binary
  pub main : lookup (codes "main") after ≡ some (record binary { executable = true })
  pub moved : lookup (codes "a.out") after ≡ none
  pub rest :
      (name : Text)
      → name ≢ codes "main"
      → name ≢ codes "a.out"
      → lookup name after ≡ lookup name dir
  pub single :
      (name : Text) (e : Entry)
      → lookup name after ≡ some e
      → is_elf_executable e ≡ true
      → name ≡ codes "main"

-- The directory without the old program.
record IsCleared (dir cleared : Directory) : Type 0 where
  rest : (name : Text) → name ≢ codes "main" → lookup name cleared ≡ lookup name dir

unlink-IsCleared :
    (dir cleared : Directory) → unlink (codes "main") dir ≡ built cleared → IsCleared dir cleared
unfolding unlink
unlink-IsCleared dir cleared h = record {
  rest = λ name ne.
      (ground
        (arith, h, ne, lookup-delete (codes "main") name dir, text_eq_iff (codes "main") name));
}

IsFinal-replace :
    (dir cleared : Directory) (binary : Entry)
    → lookup (codes "a.out") dir ≡ some binary
    → is_empty (extras (codes "a.out") dir) ≡ true
    → IsCleared dir cleared
    → IsFinal dir (replace_binary binary cleared)
unfolding replace_binary text_eq
IsFinal-replace dir cleared binary found clear h =
    let made = record binary { executable = true } in
    let at =
      λ (name : Text). lookup-insert (codes "main") name made (delete (codes "a.out") cleared) in
    let left = λ (name : Text). lookup-delete (codes "a.out") name cleared in
    record {
      binary = binary;
      found = found;
      main = lookup-insert_self (codes "main") made (delete (codes "a.out") cleared);
      moved = ground (arith, at (codes "a.out"), left (codes "a.out"));
      rest = λ name no_main no_out.
          (ground (
            arith,
            at name,
            left name,
            text_eq_iff (codes "main") name,
            text_eq_iff (codes "a.out") name,
            h.rest name no_main,
          ));
      single = λ name e there elf. (elim (Bool-cases (text_eq (codes "main") name)) [
        | inl same ↦ sym ((text_eq_iff (codes "main") name).0 same)
        | inr apart ↦ elim (Bool-cases (text_eq (codes "a.out") name)) [
          | inl out ↦ ground (arith, at name, left name)
          | inr kept ↦ ground (
            arith,
            at name,
            left name,
            text_eq_iff (codes "main") name,
            text_eq_iff (codes "a.out") name,
            h.rest name,
            extras-lookup (codes "a.out") dir name e
                (is_empty-eq (extras (codes "a.out") dir) clear),
          )
        ]
      ]);
    }

-- The conditions under which finalize succeeds.
pub record MayFinalize (dir : Directory) : Type 0 where
  pub binary : Entry
  pub found : lookup (codes "a.out") dir ≡ some binary
  pub single : extras (codes "a.out") dir ≡ []
  pub free : (e : Entry) → lookup (codes "main") dir ≡ some e → e.is_file ≡ true

finalize_binary_succeeds :
    (dir : Directory)
    → MayFinalize dir
    → (after : Directory) × (finalize_binary dir ≡ built after) × IsFinal dir after
unfolding finalize_binary ensure_single_executable unlink
finalize_binary_succeeds dir may =
    let alone = ap is_empty may.single in
    elim (Option-cases (lookup (codes "main") dir)) [
      | inl new ↦ (
        replace_binary may.binary dir,
        ground (arith, new, may.found, alone),
        IsFinal-replace dir dir may.binary may.found alone (record { rest = λ name ne. refl }),
      )
      | inr (old, there) ↦
          let cleared = delete (codes "main") dir in
          let gone : unlink (codes "main") dir ≡ built cleared =
            ground (arith, there, may.free old there) in
          (
            replace_binary may.binary cleared,
            ground (arith, may.found, alone, gone),
            IsFinal-replace dir cleared may.binary may.found alone
                (unlink-IsCleared dir cleared gone),
          )
    ]

finalize_binary-MayFinalize :
    (dir after : Directory) → finalize_binary dir ≡ built after → MayFinalize dir
unfolding finalize_binary ensure_single_executable unlink
finalize_binary-MayFinalize dir after h = elim (Option-cases (lookup (codes "a.out") dir)) [
  | inl missing ↦ absurd (ground (arith, h, missing))
  | inr (binary, found) ↦ record {
    binary = binary;
    found = found;
    single =
        is_empty-eq (extras (codes "a.out") dir)
          (ground (arith, h, found, Bool-cases (is_empty (extras (codes "a.out") dir))));
    free = λ e there. ground (arith, h, found, there, Bool-cases e.is_file);
  }
]

-- finalize succeeds exactly if make has left a.out, no other compiled program at the top of the
-- directory, and no directory named main. The program is then the executable main, in place of an old
-- one; every other file is as it was, and none of them is a compiled program.
pub finalize_binary_iff :
    (dir : Directory)
    → MayFinalize dir
      ↔ ((after : Directory) × (finalize_binary dir ≡ built after) × IsFinal dir after)
finalize_binary_iff dir =
    (finalize_binary_succeeds dir, λ r. finalize_binary-MayFinalize dir r.0 r.1)

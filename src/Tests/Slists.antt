-- ===== src/Tests/Slists.antt =====
-- A singly linked list at a concrete state.
use rtthread_nano_to_riscv.Prelude.{
  ℕ, ◌≡◌, Option, none, some, ◌==◌, if◌then◌else◌, refl, [], ◌∷◌, arith,
}
use rtthread_nano_to_riscv.Service.Slist.{slist_append, slist_remove}
use rtthread_nano_to_riscv.Service.Slist.Walks.{
  IsSlist, append_out, slist_append-IsSlist, remove_out, slist_remove-IsSlist,
}

-- the list 2, 3 behind the head 1
abbrev two_nodes : ℕ → Option ℕ
two_nodes a = if a == 1 then some 2 else (if a == 2 then some 3 else none)

two_nodes-IsSlist : IsSlist two_nodes 1 (2 ∷ 3 ∷ [])
two_nodes-IsSlist = record {
  chain = (refl, (refl, refl));
  distinct = (
    ((λ e. omega (arith, e)), ((λ e. omega (arith, e)), tt)),
    (((λ e. omega (arith, e)), tt), (tt, tt)),
  );
}

slist_append-IsSlist_example :
    (slist_append 3 1 4 two_nodes ≡ some (append_out two_nodes 1 4 (2 ∷ 3 ∷ [])))
    × IsSlist (append_out two_nodes 1 4 (2 ∷ 3 ∷ [])) 1 (2 ∷ 3 ∷ 4 ∷ [])
slist_append-IsSlist_example =
    slist_append-IsSlist two_nodes 3 1 4 (2 ∷ 3 ∷ []) two_nodes-IsSlist
      ((λ e. omega (arith, e)), ((λ e. omega (arith, e)), ((λ e. omega (arith, e)), tt)))
      (omega arith)

slist_remove-IsSlist_example :
    (slist_remove 3 1 3 two_nodes ≡ some (remove_out two_nodes 1 3 (2 ∷ [])))
    × IsSlist (remove_out two_nodes 1 3 (2 ∷ [])) 1 (2 ∷ [])
slist_remove-IsSlist_example =
    slist_remove-IsSlist two_nodes 3 1 3 (2 ∷ []) [] two_nodes-IsSlist (omega arith)

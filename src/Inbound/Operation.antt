-- ===== src/Inbound/Operation.antt =====
-- inbound/webhooks/avanpost-operation.enum.ts: the vocabulary of operations, and its reads.
pub mod Partition
use idm_mw.Prelude.{
  String, ◌==◌, ◌≡◌, ◌↔◌, ◌⊎◌, inl, inr, refl, Bool, true, false, ◌||◌, not, List, [], ◌∷◌, ◌++◌,
  includes, arith, eq_iff,
}

abbrev pub avanpost_operations : List String
avanpost_operations =
    "user.create" ∷ "user.update" ∷ "user.delete" ∷ "user.get" ∷ "user.search" ∷ "user.enable"
    ∷ "user.disable" ∷ "user.lock" ∷ "user.unlock" ∷ "user.changePassword" ∷ "user.resolve"
    ∷ "user.addAttributes" ∷ "user.removeAttributes" ∷ "group.create" ∷ "group.update"
    ∷ "group.delete" ∷ "group.get" ∷ "group.search" ∷ "group.addMember" ∷ "group.removeMember"
    ∷ "system.test" ∷ "schema.get" ∷ "sync.full" ∷ "sync.incremental" ∷ []

abbrev pub read_operations : List String
read_operations =
    "user.get" ∷ "user.search" ∷ "group.get" ∷ "group.search" ∷ "system.test" ∷ "schema.get"
    ∷ "sync.full" ∷ "sync.incremental" ∷ "user.resolve" ∷ []

abbrev pub write_operations : List String
write_operations =
    "user.create" ∷ "user.update" ∷ "user.delete" ∷ "user.enable" ∷ "user.disable" ∷ "user.lock"
    ∷ "user.unlock" ∷ "user.changePassword" ∷ "user.addAttributes" ∷ "user.removeAttributes"
    ∷ "group.create" ∷ "group.update" ∷ "group.delete" ∷ "group.addMember" ∷ "group.removeMember"
    ∷ []

unfoldable pub is_read_operation : String → Bool
is_read_operation op = includes read_operations op

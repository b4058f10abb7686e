-- ===== src/Install/Plan/Sums.antt =====
-- The sums over a plan.
use wgrd_mod_manager.Common.{ℕ, ◌+◌, ◌%◌, ◌^◌, ◌≡◌, ◌∙◌, List, [], ◌∷◌, arith}
use wgrd_mod_manager.Install.Plan.{
  ChunkPlacement, FilePlan, InstallPlan, add_placements, add_files, remote_weight, held_weight,
  remote_bytes, held_bytes,
}

-- the octets that the plan writes
planned_placements : List ChunkPlacement → ℕ
planned_placements [] = 0
planned_placements (p ∷ placements) = p.length + planned_placements placements

planned_bytes : List FilePlan → ℕ
planned_bytes [] = 0
planned_bytes (f ∷ files) = planned_placements f.placements + planned_bytes files

placements_sum :
    (a b : ℕ) (placements : List ChunkPlacement)
    → (add_placements remote_weight a placements + add_placements held_weight b placements) % 2 ^ 64
      ≡ (a + b + planned_placements placements) % 2 ^ 64
unfolding add_placements planned_placements
placements_sum a b [] = omega arith
placements_sum a b (p ∷ placements) =
    placements_sum ((a + remote_weight p) % 2 ^ 64) ((b + held_weight p) % 2 ^ 64) placements
    ∙ ground arith

files_sum :
    (a b : ℕ) (files : List FilePlan)
    → (add_files remote_weight a files + add_files held_weight b files) % 2 ^ 64
      ≡ (a + b + planned_bytes files) % 2 ^ 64
unfolding add_files planned_bytes
files_sum a b [] = omega arith
files_sum a b (f ∷ files) =
    files_sum (add_placements remote_weight a f.placements)
      (add_placements held_weight b f.placements) files
    ∙ omega (arith, placements_sum a b f.placements)

-- `RemoteBytes` and `HeldBytes` share the octets of all placements among them, up to the wrap of
-- their sum.
remote_bytes-held_bytes :
    (plan : InstallPlan)
    → (remote_bytes plan + held_bytes plan) % 2 ^ 64 ≡ planned_bytes plan.files % 2 ^ 64
unfolding remote_bytes held_bytes
remote_bytes-held_bytes plan = files_sum 0 0 plan.files ∙ omega arith

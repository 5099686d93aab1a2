-- ===== src/Processor/Dispatch/Clients.antt =====
-- What becomes of the instructions that the builders of rs/src/instruction.rs make, in the program
-- of rs/src/processor.rs.
use rebuild_token_vesting.Base.{ℕ, ◌^◌, ◌<◌, ◌≡◌, Bool, true, false, List, [], ◌∷◌, map, Result}
use rebuild_token_vesting.Error.{ProgramError}
use rebuild_token_vesting.State.Header.{Pubkey, IsPubkey}
use rebuild_token_vesting.Instruction
use rebuild_token_vesting.Instruction.{Seeds, pack}
use rebuild_token_vesting.Instruction.Wire.{IsInstruction}
use rebuild_token_vesting.Instruction.Builders
use rebuild_token_vesting.Instruction.Builders.{Metas}
use rebuild_token_vesting.Runtime.Action.{World, AccountInfo, Action, ◌>>=◌, lift}
use rebuild_token_vesting.Runtime.Calls
use rebuild_token_vesting.Runtime.Calls.{Runtime, AccountMeta}
use rebuild_token_vesting.Processor.Init.{process_init}
use rebuild_token_vesting.Processor.Create.{process_create}
use rebuild_token_vesting.Processor.Unlock.{process_unlock}
use rebuild_token_vesting.Processor.ChangeDestination.{process_change_destination}
use rebuild_token_vesting.Processor.Dispatch.{run_instruction, entrypoint}
use rebuild_token_vesting.Processor.Dispatch.Routing.{entrypoint-pack}

-- "AccountMeta::new" makes writable entries and "new_readonly" read-only ones.
pub record MetaFields (metas : Metas) : Type 0 where
  pub writable :
      (k : Pubkey) (signer : Bool)
      → metas.new k signer ≡ record { pubkey = k; is_signer = signer; is_writable = true }
  pub readonly :
      (k : Pubkey) (signer : Bool)
      → metas.new_readonly k signer ≡ record { pubkey = k; is_signer = signer; is_writable = false }

-- The runtime hands the program one `AccountInfo` for each entry.
abbrev info_of : AccountMeta → AccountInfo
info_of m = record { key = m.pubkey; is_signer = m.is_signer; is_writable = m.is_writable }

-- The entry point on an instruction that a builder returned.
unfoldable pub submit : Runtime → Result ProgramError Calls.Instruction → Action (Unit {0})
submit rt built =
    lift built >>= λ ix. entrypoint rt ix.program_id (map info_of ix.accounts) ix.input

-- The entry of the account list for the key `k`.
abbrev pub listed : Pubkey → Bool → Bool → AccountInfo
listed k signer writable = record { key = k; is_signer = signer; is_writable = writable }

module _ (rt : Runtime) (metas : Metas) (fields : MetaFields metas) (w : World) where
  -- For fields in range, the instruction that `init` builds makes the program run `process_init`
  -- with its arguments, on its accounts in their order, of which the payer alone has to sign.
  pub submit-init :
      (system rent program payer vesting : Pubkey) (seeds : Seeds) (n : ℕ)
      → IsPubkey seeds
      → n < 2 ^ 32
      → submit rt (Builders.init metas system rent program payer vesting seeds n) w
        ≡ process_init rt program
            (listed system false false
              ∷ listed rent false false
              ∷ listed payer true true
              ∷ listed vesting false true
              ∷ [])
            seeds
            n
            w
  unfolding submit Builders.init run_instruction
  submit-init system rent program payer vesting seeds n v u =
      rw
        (
          fields.readonly system false,
          fields.readonly rent false,
          fields.writable payer true,
          fields.writable vesting false,
        )
        (entrypoint-pack rt program _ w (Instruction.init seeds n) (v, u) tt)

  -- For fields in range, the instruction that `create` builds makes the program run
  -- `process_create` with its arguments, on its accounts in their order, of which the source's
  -- owner alone has to sign.
  pub submit-create :
      (program spl vesting token owner source destination mint : Pubkey)
      (ss : List Instruction.Schedule) (seeds : Seeds)
      → IsInstruction (Instruction.create seeds mint destination ss)
      → submit rt
          (Builders.create metas program spl vesting token owner source destination mint ss seeds)
          w
        ≡ process_create rt program
            (listed spl false false
              ∷ listed vesting false true
              ∷ listed token false true
              ∷ listed owner true false
              ∷ listed source false true
              ∷ [])
            seeds
            mint
            destination
            ss
            w
  unfolding submit Builders.create run_instruction
  submit-create program spl vesting token owner source destination mint ss seeds v =
      rw
        (
          fields.readonly spl false,
          fields.writable vesting false,
          fields.writable token false,
          fields.readonly owner true,
          fields.writable source false,
        )
        (entrypoint-pack rt program _ w (Instruction.create seeds mint destination ss) v tt)

  -- For fields in range, the instruction that `unlock` builds makes the program run
  -- `process_unlock` with its seeds, on its accounts in their order, of which none has to sign.
  pub submit-unlock :
      (program spl clock vesting token destination : Pubkey) (seeds : Seeds)
      → IsPubkey seeds
      → submit rt (Builders.unlock metas program spl clock vesting token destination seeds) w
        ≡ process_unlock rt program
            (listed spl false false
              ∷ listed clock false false
              ∷ listed vesting false true
              ∷ listed token false true
              ∷ listed destination false true
              ∷ [])
            seeds
            w
  unfolding submit Builders.unlock run_instruction
  submit-unlock program spl clock vesting token destination seeds v =
      rw
        (
          fields.readonly spl false,
          fields.readonly clock false,
          fields.writable vesting false,
          fields.writable token false,
          fields.writable destination false,
        )
        (entrypoint-pack rt program _ w (Instruction.unlock seeds) v tt)

  -- For fields in range, the instruction that `change_destination` builds makes the program run
  -- `process_change_destination` with its seeds, on its accounts in their order, of which the
  -- present destination's owner alone has to sign.
  pub submit-change_destination :
      (program vesting owner destination target : Pubkey) (seeds : Seeds)
      → IsPubkey seeds
      → submit rt
          (Builders.change_destination metas program vesting owner destination target seeds)
          w
        ≡ process_change_destination rt program
            (listed vesting false true
              ∷ listed destination false false
              ∷ listed owner true false
              ∷ listed target false false
              ∷ [])
            seeds
            w
  unfolding submit Builders.change_destination run_instruction
  submit-change_destination program vesting owner destination target seeds v =
      rw
        (
          fields.writable vesting false,
          fields.readonly destination false,
          fields.readonly owner true,
          fields.readonly target false,
        )
        (entrypoint-pack rt program _ w (Instruction.change_destination seeds) v tt)

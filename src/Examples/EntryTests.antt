-- ===== src/Examples/EntryTests.antt =====
-- `process_init` of rs/src/processor.rs and the entry point on the example's accounts.
use rebuild_token_vesting.Processor.Create.{process_create}
use rebuild_token_vesting.Base.{
  ◌*◌, ◌^◌, ◌<◌, ◌≡◌, ◌↔◌, refl, true, false, List, [], ◌∷◌, length, ok, arith,
}
use rebuild_token_vesting.Contract.{encode}
use rebuild_token_vesting.Runtime.Action.{AccountInfo}
use rebuild_token_vesting.Processor.Init.{state_size, process_init}
use rebuild_token_vesting.Processor.Init.Creation.{state_size_lem, process_init_iff}
use rebuild_token_vesting.Instruction.Builders
use rebuild_token_vesting.Instruction.Builders.{Metas}
use rebuild_token_vesting.Processor.Unlock.{process_unlock}
use rebuild_token_vesting.Processor.ChangeDestination.{process_change_destination}
use rebuild_token_vesting.Processor.Dispatch.Clients.{
  MetaFields, listed, submit, submit-unlock, submit-change_destination, submit-init, submit-create,
}
use rebuild_token_vesting.Processor.Dispatch.Routing.{Routed, entrypoint_routes}
use rebuild_token_vesting.Examples.Chain.{chain, chain-NextAccount, key_of}
use rebuild_token_vesting.Examples.Scene.{
  entry, program, vesting_seeds, vesting_account, vesting_tokens, bob_tokens, spl_program,
  clock_sysvar, bobs_contract, blank, held, bobs_contract-IsContract, key_of-IsPubkey,
  repeated-IsByte, schedule_args, args-IsScheduleArg,
}

state_size_lem_example : (length (encode bobs_contract) ≡ state_size 2) × (state_size 2 < 2 ^ 64)
state_size_lem_example = state_size_lem bobs_contract bobs_contract-IsContract (omega arith)

abbrev system : AccountInfo
system = entry 13 false

abbrev rent_sysvar : AccountInfo
rent_sysvar = entry 14 false

abbrev payer : AccountInfo
payer = entry 12 true

abbrev init_list : List AccountInfo
init_list = system ∷ rent_sysvar ∷ payer ∷ vesting_account ∷ []

process_init_iff_example :
    (process_init chain program init_list vesting_seeds 2 blank ≡ (ok tt, blank)) ↔ (
      (chain.create_program_address (vesting_seeds ∷ []) program ≡ ok vesting_account.key)
      × (chain.invoke_signed
            (chain.create_account payer.key vesting_account.key
              (state_size 2 * 10)
              (state_size 2)
              program)
            (system ∷ payer ∷ vesting_account ∷ [])
            ((vesting_seeds ∷ []) ∷ [])
            blank
          ≡ (ok tt, blank)))
process_init_iff_example =
    process_init_iff chain chain-NextAccount program system rent_sysvar payer vesting_account []
      vesting_seeds 2 blank (λ n. n * 10) refl blank

abbrev unlock_list : List AccountInfo
unlock_list = spl_program ∷ clock_sysvar ∷ vesting_account ∷ vesting_tokens ∷ bob_tokens ∷ []

entrypoint_routes_example : Routed chain program unlock_list (held 10) (2 ∷ key_of 2)
entrypoint_routes_example =
    entrypoint_routes chain program unlock_list (held 10) (2 ∷ key_of 2)
      (omega arith, repeated-IsByte 32 2 (omega arith))

-- `AccountMeta::new` and `AccountMeta::new_readonly`
abbrev pub metas : Metas
metas = record {
  new = λ k s. record { pubkey = k; is_signer = s; is_writable = true };
  new_readonly = λ k s. record { pubkey = k; is_signer = s; is_writable = false };
}

pub metas-MetaFields : MetaFields metas
metas-MetaFields = record { writable = λ k s. refl; readonly = λ k s. refl }

submit-unlock_example :
    submit chain
      (Builders.unlock metas program
        (key_of 9)
        (key_of 10)
        (key_of 2)
        (key_of 3)
        (key_of 6)
        vesting_seeds)
      (held 10)
    ≡ process_unlock chain program
        (listed (key_of 9) false false
          ∷ listed (key_of 10) false false
          ∷ listed (key_of 2) false true
          ∷ listed (key_of 3) false true
          ∷ listed (key_of 6) false true
          ∷ [])
        vesting_seeds
        (held 10)
submit-unlock_example =
    submit-unlock chain metas metas-MetaFields (held 10) program (key_of 9) (key_of 10) (key_of 2)
      (key_of 3) (key_of 6) vesting_seeds (key_of-IsPubkey 2 (omega arith))

submit-change_destination_example :
    submit chain
      (Builders.change_destination metas program
        (key_of 2)
        (key_of 7)
        (key_of 6)
        (key_of 8)
        vesting_seeds)
      (held 10)
    ≡ process_change_destination chain program
        (listed (key_of 2) false true
          ∷ listed (key_of 6) false false
          ∷ listed (key_of 7) true false
          ∷ listed (key_of 8) false false
          ∷ [])
        vesting_seeds
        (held 10)
submit-change_destination_example =
    submit-change_destination chain metas metas-MetaFields (held 10) program (key_of 2) (key_of 7)
      (key_of 6) (key_of 8) vesting_seeds (key_of-IsPubkey 2 (omega arith))

submit-init_example :
    submit chain
      (Builders.init metas (key_of 13) (key_of 14) program (key_of 12) (key_of 2) vesting_seeds 2)
      blank
    ≡ process_init chain program
        (listed (key_of 13) false false
          ∷ listed (key_of 14) false false
          ∷ listed (key_of 12) true true
          ∷ listed (key_of 2) false true
          ∷ [])
        vesting_seeds
        2
        blank
submit-init_example =
    submit-init chain metas metas-MetaFields blank (key_of 13) (key_of 14) program (key_of 12)
      (key_of 2) vesting_seeds 2 (key_of-IsPubkey 2 (omega arith)) (omega arith)

submit-create_example :
    submit chain
      (Builders.create metas program
        (key_of 9)
        (key_of 2)
        (key_of 3)
        (key_of 4)
        (key_of 5)
        (key_of 6)
        (key_of 11)
        schedule_args
        vesting_seeds)
      blank
    ≡ process_create chain program
        (listed (key_of 9) false false
          ∷ listed (key_of 2) false true
          ∷ listed (key_of 3) false true
          ∷ listed (key_of 4) true false
          ∷ listed (key_of 5) false true
          ∷ [])
        vesting_seeds
        (key_of 11)
        (key_of 6)
        schedule_args
        blank
submit-create_example =
    submit-create chain metas metas-MetaFields blank program (key_of 9) (key_of 2) (key_of 3)
      (key_of 4) (key_of 5) (key_of 6) (key_of 11) schedule_args vesting_seeds
      (
        key_of-IsPubkey 2 (omega arith),
        key_of-IsPubkey 11 (omega arith),
        key_of-IsPubkey 6 (omega arith),
        args-IsScheduleArg,
      )

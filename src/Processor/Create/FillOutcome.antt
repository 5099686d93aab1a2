-- ===== src/Processor/Create/FillOutcome.antt =====
-- How the writes of `process_create` (rs/src/processor.rs) end, on an account of any size.
use rebuild_token_vesting.Base.{
  ℕ, ◌+◌, ◌*◌, ◌^◌, ◌≤◌, ◌<◌, ◌≡◌, ◌≢◌, sym, ap, ◌∙◌, List, ◌++◌, length, length-drop, drop, ok,
  err, arith, le-or-lt, inl, inr, ◌==◌, Bool-cases, map, ==-ne, ==_iff,
}
use rebuild_token_vesting.Base.Bytes.{Bytes}
use rebuild_token_vesting.Error.{ProgramError, invalid_instruction_data, invalid_account_data}
use rebuild_token_vesting.State.Header.{Pubkey, IsPubkey, IsHeader}
use rebuild_token_vesting.State.Layout.{encode_header, length-encode_header}
use rebuild_token_vesting.State.RoundTrip.{Header-pack_lem}
use rebuild_token_vesting.Instruction
use rebuild_token_vesting.Contract.{header, encode, locked}
use rebuild_token_vesting.Runtime.Action.{World, AccountInfo, data_of, set_data}
use rebuild_token_vesting.Runtime.Steps.{pure-eq-ok}
use rebuild_token_vesting.Runtime.Store.{data_of-set_data, set_data-set_data}
use rebuild_token_vesting.Processor.Create.{fill, state_schedule, fill_loop}
use rebuild_token_vesting.Processor.Create.Fill.{contract_of, fill_loop_fits, fill_loop_over}

module _ (vesting : AccountInfo) (mint dest : Pubkey) (km : IsPubkey mint) (kd : IsPubkey dest)
    (ss : List Instruction.Schedule) (w : World) where
  -- The bytes in the account when the loop starts.
  headed : Bytes
  headed = encode_header (header (contract_of mint dest ss)) ++ drop 65 (data_of w vesting.key)

  header_valid : IsHeader (header (contract_of mint dest ss))
  header_valid = record { destination_key = kd; mint_key = km }

  starts_loop :
      length (data_of w vesting.key) ≡ 65 + length ss * 16
      → fill vesting mint dest ss w ≡ fill_loop vesting.key ss 65 0 (set_data w vesting.key headed)
  unfolding fill headed
  starts_loop size =
      ground (arith, Header-pack_lem (header (contract_of mint dest ss)) (data_of w vesting.key))

  pub fill_wrong_size :
      length (data_of w vesting.key) ≢ 65 + length ss * 16
      → fill vesting mint dest ss w ≡ (err invalid_account_data, w)
  unfolding fill
  fill_wrong_size size = ground arith

  -- In an account of the right size the contract is stored, if its total is a `u64`.
  pub fill_stores :
      length (data_of w vesting.key) ≡ 65 + length ss * 16
      → locked (map state_schedule ss) < 2 ^ 64
      → fill vesting mint dest ss w ≡ (
        ok (locked (map state_schedule ss)),
        set_data w vesting.key (encode (contract_of mint dest ss)),
      )
  unfolding encode headed
  fill_stores size fits =
      starts_loop size
      ∙ fill_loop_fits vesting.key ss 65 0 (encode_header (header (contract_of mint dest ss)))
          (drop 65 (data_of w vesting.key)) (set_data w vesting.key headed)
          (data_of-set_data w vesting.key headed)
          (length-encode_header (header (contract_of mint dest ss)) header_valid)
          (omega (arith, length-drop 65 (data_of w vesting.key))) (omega arith)
      ∙ (let sum : 0 + locked (map state_schedule ss) ≡ locked (map state_schedule ss) =
            omega arith in
          rw (sum, set_data-set_data w vesting.key headed (encode (contract_of mint dest ss))))

  -- With keys of 32 bytes, on an account of the right size, schedules whose amounts add up to 2^64
  -- or more are refused with `InvalidInstructionData`.
  pub fill_total_over :
      length (data_of w vesting.key) ≡ 65 + length ss * 16
      → 2 ^ 64 ≤ locked (map state_schedule ss)
      → (fill vesting mint dest ss w).0 ≡ err invalid_instruction_data
  unfolding headed
  fill_total_over size over =
      ap (λ x. x.0) (starts_loop size)
      ∙ fill_loop_over vesting.key ss 65 0 (encode_header (header (contract_of mint dest ss)))
          (drop 65 (data_of w vesting.key)) (set_data w vesting.key headed)
          (data_of-set_data w vesting.key headed)
          (length-encode_header (header (contract_of mint dest ss)) header_valid)
          (omega (arith, length-drop 65 (data_of w vesting.key))) (omega arith) (omega arith)

  -- With keys of 32 bytes: a `fill` that succeeds was given an account of exactly the contract's
  -- size and a total that is a `u64`; it returns that total and has stored the contract.
  pub fill-eq-ok :
      (total : ℕ) (w1 : World)
      → fill vesting mint dest ss w ≡ (ok total, w1)
      → (length (data_of w vesting.key) ≡ 65 + length ss * 16)
        × (locked (map state_schedule ss) < 2 ^ 64)
        × (total ≡ locked (map state_schedule ss))
        × (w1 ≡ set_data w vesting.key (encode (contract_of mint dest ss)))
  fill-eq-ok total w1 e =
      elim (Bool-cases (length (data_of w vesting.key) == 65 + length ss * 16)) [
        | inl size ↦ elim (le-or-lt (2 ^ 64) (locked (map state_schedule ss))) [
          | inr fits ↦
              let size' : length (data_of w vesting.key) ≡ 65 + length ss * 16 =
                (==_iff _ _).0 size in
              let (a, b) = pure-eq-ok total w1 (sym e ∙ fill_stores size' fits) in
              (size', fits, a, sym b)
          | inl over ↦
              absurd (failed (sym (ap (λ x. x.0) e) ∙ fill_total_over ((==_iff _ _).0 size) over))
        ]
        | inr wrong ↦
            absurd
              (failed (sym (ap (λ x. x.0) e) ∙ ap (λ x. x.0) (fill_wrong_size (==-ne _ _ wrong))))
      ]
    where
      failed : {x : ProgramError} → ok total ≡ err x → ⊥
      failed h = cc

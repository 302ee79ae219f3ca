-- ===== src/Wagering/References.antt =====
-- src/wagering/process-wager.ts: the wallet row read back, the checks of a reference, and what
-- `resolveReversal` returns.
use Prim.Native.String.{◌++◌}
use jungle_backend_challenge.Prelude.{Bool, true, false, ◌&&◌, String, ◌==◌, Option, none, some}
use jungle_backend_challenge.Domain.Errors.{unprocessable}
use jungle_backend_challenge.Domain.Money
use jungle_backend_challenge.Domain.Money.{Money}
use jungle_backend_challenge.Domain.LedgerEntry.{LedgerDirection, debit, credit}
use jungle_backend_challenge.Domain.Wallet.{Wallet}
use jungle_backend_challenge.Domain.WagerTransaction.{
  WagerType, bet, win, refund, rollback, processed,
}
use jungle_backend_challenge.Database.Rows.{WalletRow, WagerRow}
use jungle_backend_challenge.Database.Tx.{Env, Tx, ◌>>=◌, pure, throw, lift, clock}
use jungle_backend_challenge.Wagering.Types.{SubmitInput, same_type, same_status, is_text}
use jungle_backend_challenge.Wagering.Repository.{
  find_reference_by_provider_external, find_reference_by_external, lock_wallet_by_id,
}

abbrev pub no_wallet : {A : Type 0} → String → Tx A
no_wallet message = throw (unprocessable "WALLET_NOT_FOUND" (some message))

abbrev pub no_wallet_for : {A : Type 0} → SubmitInput → Tx A
no_wallet_for input =
    no_wallet ("no wallet for player " ++ (input.player_id ++ (" in " ++ input.money.currency)))

-- `Wallet.rehydrate` of a locked row, whose amount is validated again.
unfoldable pub wallet_of_row : {D : Type 0} → Env D → WalletRow → Tx Wallet
wallet_of_row env row = do
  balance ← lift (
      Money.create env.dec
        (record { amount = row.balance_amount; currency = row.balance_currency }))
  now ← clock
  pure (record {
    id = row.id;
    player_id = row.player_id;
    currency = row.currency;
    balance = balance;
    version = row.version;
    created_at = now;
    updated_at = now;
  })

-- What a WIN may refer to.
unfoldable pub valid_win_reference : SubmitInput → WalletRow → Option WagerRow → Bool
unfolding same_type same_status
valid_win_reference input wallet none = false
valid_win_reference input wallet (some r) =
    same_status r.status processed
    && same_type r.type bet
    && r.provider_id == input.provider_id
    && r.wallet_id == wallet.id
    && is_text r.player_id input.player_id
    && is_text r.round_id input.round_id
    && r.amount_currency == input.money.currency

-- `validScope` of `applyResolvedReversal`.
unfoldable pub valid_reference_type : WagerType → WagerType → Bool
valid_reference_type refund bet = true
valid_reference_type refund _ = false
valid_reference_type _ bet = true
valid_reference_type _ win = true
valid_reference_type _ refund = true
valid_reference_type _ _ = false

unfoldable pub valid_scope : SubmitInput → WalletRow → WagerRow → Bool
unfolding valid_reference_type same_status
valid_scope input wallet r =
    valid_reference_type input.kind r.type
    && r.provider_id == input.provider_id
    && same_status r.status processed
    && is_text r.player_id input.player_id
    && r.wallet_id == wallet.id
    && wallet.player_id == input.player_id
    && wallet.currency == input.money.currency
    && is_text r.round_id input.round_id
    && r.amount_amount == input.money.amount
    && r.amount_currency == input.money.currency

-- The direction of a reversal follows its reference.
unfoldable pub reversal_direction : WagerType → WagerType → LedgerDirection
reversal_direction refund _ = credit
reversal_direction rollback bet = credit
reversal_direction _ _ = debit

unfoldable pub bet_direction : WagerType → LedgerDirection
bet_direction bet = debit
bet_direction _ = credit

-- What `resolveReversal` returns.
pub record Resolved : Type 0 where
  pub wallet_row : Option WalletRow
  pub reference_row : Option WagerRow
  pub provider_mismatch : Bool

abbrev pub resolved : Option WalletRow → Option WagerRow → Bool → Tx Resolved
resolved w r m = pure (record { wallet_row = w; reference_row = r; provider_mismatch = m })

abbrev is_some : Option WagerRow → Bool
is_some none = false
is_some (some _) = true

-- The rest of `resolveReversal` for a wallet and a reference.
unfoldable pub resolve_reference : SubmitInput → WalletRow → Option String → Tx Resolved
resolve_reference input wallet none = resolved (some wallet) none false
resolve_reference input wallet (some external) = do
  own ← find_reference_by_provider_external input.provider_id external
  elim own [
    | some r ↦ resolved (some wallet) (some r) false
    | none ↦ do
      other ← find_reference_by_external external
      resolved (some wallet) other (is_some other)
  ]

unfoldable pub resolve_reversal : SubmitInput → Tx Resolved
unfolding resolve_reference
resolve_reversal input = do
  row ← lock_wallet_by_id input.wallet_id
  elim row [
    | none ↦ resolved none none false
    | some wallet ↦ resolve_reference input wallet input.reference_external_transaction_id
  ]

-- ===== src/Payment/Tests.antt =====
-- Runs of modules/transaction_payment/src/lib.rs on concrete fees, and witnesses of its theorems.
use chain_upgrade.Base.{ℕ, ◌+◌, ◌-◌, ◌*◌, ◌≡◌, ◌≤◌, refl, true, some, ok, min, u128_max, [], arith}
use chain_upgrade.Substrate.Ledger.{Book, set_at}
use chain_upgrade.Payment.Fees.{
  yes, no, DispatchInfo, PostDispatchInfo, compute_fee, compute_actual_fee, weight_to_fee, convert,
}
use chain_upgrade.Payment.FeeLaws.{compute_fee_lem}
use chain_upgrade.Payment.Charging.{
  State, Pre, pre_dispatch, post_dispatch, reserve_fee, unreserve_and_charge_fee, refund_fee,
}
use chain_upgrade.Payment.Settlement.{announced_fee, owed_fee, IsPaidOut}
use chain_upgrade.Payment.ChargingLaws.{post_dispatch-pre_dispatch}
use chain_upgrade.Payment.Reserved.{refund_fee-unreserve_and_charge_fee}
use chain_upgrade.Payment.Samples.{
  config, post_info_of, documented, fee_currency, fee_currency_laws,
}

abbrev info : DispatchInfo config
info = record { weight = 40; class = true; pays_fee = yes }

abbrev heavy_info : DispatchInfo config
heavy_info = record { weight = 80; class = true; pays_fee = yes }

abbrev post_info : PostDispatchInfo config
post_info = record { actual_weight = some 25; pays_fee = yes }

abbrev rich : Book
rich = record { free = λ _. 1000; held = λ _. 50; issued = 100_000 }

abbrev start : State ℕ fee_currency
start = record { ledger = rich; next_fee_multiplier = 2; default_fee_currency_id = []; events = [] }

-- 10 for the class, 2 * 6 for the length, 2 * 40 for the weight, and the tip
fee_of_40 : compute_fee config 6 info 3 2 ≡ 105
unfolding compute_fee
fee_of_40 = refl

fee_of_25 : compute_actual_fee config post_info_of 6 info post_info 3 2 ≡ 75
unfolding compute_actual_fee
fee_of_25 = refl

compute_fee_lem_example :
    ((info.pays_fee ≡ yes)
      → compute_fee config 6 info 3 2
        ≡ min u128_max
            (weight_to_fee config (config.base_extrinsic true) + 2 * 6 + convert config 40 2 + 3))
    × ((info.pays_fee ≡ no) → compute_fee config 6 info 3 2 ≡ 3)
compute_fee_lem_example = compute_fee_lem documented 6 info 3 2

-- The account 1 pays 105 in advance.
abbrev paid : State ℕ fee_currency
paid = record start { ledger = record rich { free = set_at 1 895 (λ _. 1000) } }

abbrev pre : Pre ℕ fee_currency
pre = record { tip = 3; who = 1; imbalance = some 105; fee = 105 }

paid_in_advance : pre_dispatch fee_currency config 3 1 info 6 start ≡ ok (pre, paid)
unfolding pre_dispatch compute_fee
paid_in_advance = refl

post_dispatch-pre_dispatch_example :
    (paid.ledger.free 1 + announced_fee config 6 info 3 2 ≡ rich.free 1)
    × ((owed_fee config post_info_of 6 info post_info 3 2 ≤ announced_fee config 6 info 3 2)
        × ((s₃ : State ℕ fee_currency) × ((post_dispatch fee_currency config post_info_of
                  (some pre)
                  info
                  post_info
                  6
                  paid
                ≡ ok s₃)
              × IsPaidOut fee_currency 1
                  (announced_fee config 6 info 3 2
                    - owed_fee config post_info_of 6 info post_info 3 2)
                  (announced_fee config 6 info 3 2)
                  3
                  paid.ledger
                  s₃.ledger)))
post_dispatch-pre_dispatch_example =
    post_dispatch-pre_dispatch fee_currency_laws documented 3 1 info post_info 6 start paid paid pre
      (ground arith) paid_in_advance refl

abbrev held : Book
held = record rich { free = set_at 1 960 rich.free; held = set_at 1 90 rich.held }

reserved : reserve_fee fee_currency config 1 40 rich ≡ ok (40, held)
unfolding reserve_fee weight_to_fee
reserved = refl

lighter : documented.IsLighter 15 40
lighter = ground arith

abbrev charged : Book
charged = record rich {
  free = set_at 1 960 (set_at 1 1000 held.free);
  held = set_at 1 50 held.held;
}

is_charged : unreserve_and_charge_fee fee_currency config 1 40 held ≡ ok ((40, 40), charged)
unfolding unreserve_and_charge_fee weight_to_fee
is_charged = refl

refund_fee-unreserve_and_charge_fee_example :
    ((charged.free 1 + 40 ≡ rich.free 1) × (charged.held 1 ≡ rich.held 1))
    × ((m : Book) × ((refund_fee fee_currency config 1 15 40 charged ≡ ok m)
          × IsPaidOut fee_currency 1 (weight_to_fee config 15) 40 0 charged m))
refund_fee-unreserve_and_charge_fee_example =
    refund_fee-unreserve_and_charge_fee fee_currency_laws documented 1 40 15 rich held charged 40 40
      40 reserved is_charged lighter

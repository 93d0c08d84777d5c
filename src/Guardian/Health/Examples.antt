-- ===== src/Guardian/Health/Examples.antt =====
-- Two checks of a fund whose pool is emptied.
use attested_capital.Base.{◌*◌, ◌<◌, ◌≡◌, ◌↔◌, refl, true, some, [], any}
use attested_capital.Guardian.Health.{
  FundManagerStatus, healthy, error, report, get_latest, check, reached,
}
use attested_capital.Guardian.Health.Alerts.{is_drop, check-compares}

abbrev rich : FundManagerStatus
rich = record {
  total_pool_balance = 1000;
  total_nfts_active = 4;
  active_strategy = "dca";
  is_paused = 0;
}

abbrev empty_pool : FundManagerStatus
empty_pool = record rich { total_pool_balance = 0 }

drop_test : any is_drop (check (report empty_pool) (check (report rich) []).1).0 ≡ true
unfolding check get_latest
drop_test = refl

check-compares_example :
    ((any is_drop (check (report empty_pool) (check (report rich) []).1).0 ≡ true)
      ↔ (0 * 10 < 1000 * 9))
    × ((check (report empty_pool) (check (error "HTTP 502") []).1).0 ≡ [])
    × (get_latest (check (report empty_pool) (check (error "HTTP 502") []).1).1
        ≡ some (reached 2 empty_pool healthy))
check-compares_example = check-compares empty_pool [] rich "HTTP 502"

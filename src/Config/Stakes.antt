-- ===== src/Config/Stakes.antt =====
-- What the validation says of the stakes.
use decentralized_poker_engi.Common.{◌*◌, ◌≤◌, ◌<◌, ◌≡◌, arith, true}
use decentralized_poker_engi.Int64.{half, lt64, le64}
use decentralized_poker_engi.Config.{Config, validate}

-- For stakes from 0 on whose tenfold big blind is an int64, a table that is accepted has two to nine
-- seats, a small blind from 1 on below the big blind, and a buy-in of ten big blinds or more.
pub validate-stakes :
    (c : Config)
    → c.max_seats < half
    → c.small_blind < half
    → c.big_blind * 10 < half
    → c.buy_in < half
    → validate c ≡ true
    → (2 ≤ c.max_seats)
      × (c.max_seats ≤ 9)
      × (1 ≤ c.small_blind)
      × (c.small_blind < c.big_blind)
      × (c.big_blind * 10 ≤ c.buy_in)
unfolding validate lt64 le64
validate-stakes c seats small big buy h = ground (arith, h)

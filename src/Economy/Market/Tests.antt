-- ===== src/Economy/Market/Tests.antt =====
-- One order, one stock.
use routine_linux_edition.Base.{◌≡◌, refl, true, arith}
use routine_linux_edition.Base.Int.{pos, negsuc, ◌*ℤ◌, ◌≤ℤ◌}
use routine_linux_edition.Base.Bytes.{bytes}
use routine_linux_edition.Economy.State.{LimitOrder, new_limit_order}
use routine_linux_edition.Economy.Market.Share.{
  Luck, Share, earned, mood, priced, distressed, diluted,
}
use routine_linux_edition.Economy.Market.Share.Bounds.{IsInOrder, traded-IsInOrder}
use routine_linux_edition.Economy.Market.{split_order}
use routine_linux_edition.Economy.Market.Splitting.{split_order_escrow}

abbrev wanted : LimitOrder
wanted = record new_limit_order {
  guild_id = bytes "1";
  user_id = bytes "2";
  stock = 3;
  buy = true;
  quantity = 10;
  limit_price_cents = pos 501;
}

split_order_escrow_example :
    (split_order (bytes "1") 3 wanted).limit_price_cents
      *ℤ pos (split_order (bytes "1") 3 wanted).quantity
    ≤ℤ wanted.limit_price_cents *ℤ pos wanted.quantity
split_order_escrow_example = split_order_escrow (bytes "1") 3 wanted (omega arith) (omega arith)

abbrev quiet_hour : Luck
quiet_hour = record {
  npc_volume = 100;
  revenue = pos 40;
  expenses = negsuc 29;
  sentiment = pos 20;
  volatility = pos 10;
  crash = pos 0;
  jump = pos 0;
  jump_size = pos 0;
}

abbrev first_share : Share
first_share = record {
  price = pos 50;
  revenue = pos 5_200_000;
  expenses = pos 3_900_000;
  profit = pos 1_300_000;
  cash = pos 100;
  debt = pos 900;
  shares_outstanding = 1_500_000;
  volume = 0;
  liquidity = 300;
  remaining_liquidity = 300;
  sentiment = pos 65;
  halted_until = pos 0;
  distress = 0;
  listed = true;
}

traded-IsInOrder_example : IsInOrder (
    distressed (
      priced
        (pos 7_200)
        (pos 30)
        (mood (pos 2) quiet_hour (earned (pos 2) (pos 250) quiet_hour first_share))))
traded-IsInOrder_example =
    traded-IsInOrder (pos 2) (pos 250) (pos 30) (pos 7_200) quiet_hour first_share (omega arith)

-- Issued shares take the price below the least price.
diluted_low : (diluted first_share).price ≡ pos 47
unfolding diluted
diluted_low = refl

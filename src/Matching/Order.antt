-- ===== src/Matching/Order.antt =====
-- capstone/matching/solution-reference/include/matching/order.hpp.
-- A `std::uint64_t` is a native number, `std::int64_t` is ℤ.
use Prim.Native.String.{String}
use becomeasystemsengineer.Prelude.{ℕ, Bool}
use becomeasystemsengineer.Prelude.Int.{ℤ}
use becomeasystemsengineer.Prelude.Bytes.{Bytes}

pub data Side : Type 0 where
  buy sell : Side

pub data TimeInForce : Type 0 where
  good_till_cancel immediate_or_cancel : TimeInForce

pub record Order : Type 0 where
  pub id : ℕ
  pub symbol : Bytes
  pub side : Side
  pub price_ticks : ℤ
  pub quantity : ℕ
  pub sequence : ℕ
  pub tif : TimeInForce

pub record Fill : Type 0 where
  pub taker_id : ℕ
  pub maker_id : ℕ
  pub taker_side : Side
  pub price_ticks : ℤ
  pub quantity : ℕ
  pub sequence : ℕ

pub record Ack : Type 0 where
  pub order_id : ℕ
  pub accepted : Bool
  pub remaining : ℕ
  pub reason : String

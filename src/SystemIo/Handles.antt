-- ===== src/SystemIo/Handles.antt =====
-- The handle tables of src/modules/systemio. artik_pwm.c, artik_i2c.c, artik_serial.c, artik_spi.c
-- and artik_gpio.c keep one `requested_node` list each and open a handle in the same way, over
-- their own configuration, `check_exist` and `os_` layer: this file has the common shape, and the
-- file of each module fills it in. artik_adc.c opens in another order.
pub mod Invariant
pub mod Spec
pub mod View
pub mod Refine
pub mod Exclusive
mod Tests
use artik_sdk.Prelude.{ℕ, ◌+◌, Bool, Option, none, some, if◌then◌else◌}
use artik_sdk.Error.{ArtikError, s_ok, e_bad_args, e_busy, e_no_mem, is_ok}
use artik_sdk.ArtikList.Store.{store}
use artik_sdk.ArtikList.{
  ArtikList, Node, sizeof_artik_list, add, delete_node, get_by_check, get_by_handle,
}

-- The `os_` layer of a module over a world `W`: a call may rewrite the configuration that it is
-- given a pointer to.
pub record Driver (C W : Type 0) : Type 0 where
  pub request : C → W → ArtikError × C × W
  pub release : C → W → ArtikError × C × W

-- What a module is over: `check_exist node_config config`, the answer to a failed `os_` request,
-- the size of its configuration and the zeroed one.
pub record Frontend (C W : Type 0) : Type 0 where
  pub check_exist : C → C → Bool
  pub failed : ArtikError → ArtikError
  pub config_bytes : ℕ
  pub blank : C
  pub driver : Driver C W

pub record State (C W : Type 0) : Type 0 where
  pub requested_node : ArtikList C
  pub world : W

module _ {C : Type 0} where
  abbrev pub fill : C → Node C → Node C
  fill config n = record n { handle = n.addr; payload = config }

module _ {C W : Type 0} where
  -- After `os_..._request` has answered for the new node at `p`.
  unfoldable pub settle :
      Frontend C W → ArtikList C → ℕ → ArtikError × C × W → ArtikError × Option ℕ × State C W
  settle m l p (err, config, w) =
      if is_ok err
      then (s_ok, some p, record { requested_node = store p (fill config) l; world = w })
      else (m.failed err, none, record { requested_node = (delete_node l p).1; world = w })

  unfoldable pub open_node :
      Frontend C W
      → State C W
      → C
      → Option (Node C) × ArtikList C
      → ArtikError × Option ℕ × State C W
  unfolding settle
  open_node m st config (none, l) = (e_no_mem, none, record st { requested_node = l })
  open_node m st config (some n, l) = settle m l n.addr (m.driver.request config st.world)

  -- The request of a handle: its result, `*handle` if it is written, and the state after it.
  pub request : Frontend C W → State C W → C → Option ℕ → ArtikError × Option ℕ × State C W
  unfolding open_node
  request m st config malloc =
      elim (get_by_check st.requested_node (some (λ n. m.check_exist n.payload config))) [
        | some n ↦ (e_busy, none, st)
        | none ↦
            open_node m st config
              (add st.requested_node 0 (sizeof_artik_list + m.config_bytes) malloc m.blank)
      ]

  unfoldable pub close_node : ArtikList C → Node C → ArtikError × C × W → ArtikError × State C W
  close_node l n (err, config, w) =
      let l' : ArtikList C = store n.addr (λ x. record x { payload = config }) l in
      if is_ok err
      then (s_ok, record { requested_node = (delete_node l' n.addr).1; world = w })
      else (err, record { requested_node = l'; world = w })

  pub release : Frontend C W → State C W → ℕ → ArtikError × State C W
  unfolding close_node
  release m st handle = elim (get_by_handle st.requested_node handle) [
    | none ↦ (e_bad_args, st)
    | some n ↦ close_node st.requested_node n (m.driver.release n.payload st.world)
  ]

  unfoldable pub update_node : {R : Type 0} → State C W → Node C → R × C × W → R × State C W
  update_node st n (res, config, w) = (
    res,
    record {
      requested_node = store n.addr (λ x. record x { payload = config }) st.requested_node;
      world = w;
    },
  )

  -- Any other operation: an unknown handle gives `missing`, and for a node the `os_` layer gets its
  -- configuration.
  pub with_node : {R : Type 0} → R → (C → W → R × C × W) → State C W → ℕ → R × State C W
  unfolding update_node
  with_node missing op st handle = elim (get_by_handle st.requested_node handle) [
    | none ↦ (missing, st)
    | some n ↦ update_node st n (op n.payload st.world)
  ]

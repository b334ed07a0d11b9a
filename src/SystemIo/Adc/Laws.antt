-- ===== src/SystemIo/Adc/Laws.antt =====
-- artik_adc.c: a request against the promise of a handle table, and what it leaves without memory.
use artik_sdk.Prelude.{ℕ, ◌+◌, ◌≡◌, refl, true, false, none, some, arith, Bool-cases, inl, inr}
use artik_sdk.Error.{ArtikError, e_no_mem, is_ok}
use artik_sdk.ArtikList.{sizeof_artik_list, new_node}
use artik_sdk.ArtikList.Lookup.{add_lem, add-none}
use artik_sdk.SystemIo.Handles.{State, fill}
use artik_sdk.SystemIo.Handles.Spec.{is_taken, opened, request_spec}
use artik_sdk.ArtikList.Store.{IsFresh, store-append}
use artik_sdk.SystemIo.Handles.View.{view, view-append}
use artik_sdk.SystemIo.Handles.Refine.{shown, get_by_check-none, get_by_check-some}
use artik_sdk.SystemIo.Adc.{
  Config, Os, blank_config, adc_frontend, artik_adc_request, keep_open, keep_node,
}

module _ {W : Type 0} (os : Os W) where
  keep_open_lem :
      (st : State Config W) (p : ℕ) (r : ArtikError × Config × W)
      → IsFresh p st.requested_node
      → shown (adc_frontend os) (keep_open os st (some p) r)
        ≡ opened (adc_frontend os) (view st.requested_node) p r
  unfolding keep_open new_node
  keep_open_lem st p (err, c, w) fr = elim (Bool-cases (is_ok err)) [
    | inl e ↦
        rw
          (
            e,
            add_lem st.requested_node 0 (sizeof_artik_list + 24) p blank_config (omega arith),
            keep_node,
            store-append p (fill c) st.requested_node
                (new_node p blank_config 0 (sizeof_artik_list + 24)) refl fr,
            view-append,
          )
          refl
    | inr e ↦ rw e refl
  ]

  -- A request that gets memory does what the other modules' does, with the answer of the layer
  -- handed on.
  pub artik_adc_request_refines :
      (st : State Config W) (config : Config) (p : ℕ)
      → IsFresh p st.requested_node
      → shown (adc_frontend os) (artik_adc_request os st config (some p))
        ≡ request_spec (adc_frontend os) (view st.requested_node) st.world config p
  unfolding artik_adc_request
  artik_adc_request_refines st config p fr =
      elim (Bool-cases (is_taken (adc_frontend os) (view st.requested_node) config)) [
        | inl e ↦
            rw
              (
                e,
                (get_by_check-some (adc_frontend os) st.requested_node config e).1,
                artik_adc_request,
              )
              refl
        | inr e ↦
            rw
              (e, get_by_check-none (adc_frontend os) st.requested_node config e, artik_adc_request)
              (keep_open_lem st p (os.driver.request config st.world) fr)
      ]

  -- Where the layer opens the channel and there is no memory for the node, the request is E_NO_MEM,
  -- no handle leads to the channel, and the layer is left with it open.
  pub artik_adc_request-leak :
      (st : State Config W) (config : Config)
      → is_taken (adc_frontend os) (view st.requested_node) config ≡ false
      → is_ok (os.driver.request config st.world).0 ≡ true
      → artik_adc_request os st config none
        ≡ (e_no_mem, none, record st { world = (os.driver.request config st.world).2 })
  unfolding artik_adc_request
  artik_adc_request-leak st config free ok =
      rw
        (
          get_by_check-none (adc_frontend os) st.requested_node config free,
          artik_adc_request,
          keep_open,
          ok,
          add-none st.requested_node 0 (sizeof_artik_list + 24) blank_config,
          keep_node,
        )
        refl

-- ===== src/Models/Events/Members.antt =====
-- The members of the JSON that `WSSubscription::toJson` of src/mexc_event_models.cpp sends.
use mexc_cpp_api.Base.{◌≡◌, false, not, ok, is_empty}
use mexc_cpp_api.Base.Int.{negsuc, eqb_ℤ}
use mexc_cpp_api.Base.Text.{text_eq}
use mexc_cpp_api.External.{Library}
use mexc_cpp_api.Models.Orders.Members.{SetsKeys, contains_set_if, at_set_if, if_same}
use mexc_cpp_api.Models.Events.{Subscription, parameters_to_json, subscription_to_json}

module _ (library : Library) (laws : SetsKeys library) where
  open library use {contains, at_key, of_string}

  -- If `contains`, `operator[]` and assignment to a key behave as documented, the JSON of a subscription
  -- has the method and the parameters at its top level and no symbol there: the symbol stands among the
  -- parameters, with a limit, an interval and the compression exactly if they are set.
  pub subscription_members :
      (s : Subscription)
      → let json = subscription_to_json library s in
        let param = parameters_to_json library s.parameters in
        (contains json "symbol" ≡ false)
        × (at_key json "method" ≡ ok (of_string s.method))
        × (at_key json "param" ≡ ok param)
        × (at_key param "symbol" ≡ ok (of_string s.parameters.symbol))
        × (contains param "limit" ≡ not (eqb_ℤ s.parameters.limit (negsuc 0)))
        × (contains param "interval" ≡ not (is_empty s.parameters.interval))
        × (contains param "compress" ≡ s.parameters.compress)
  unfolding subscription_to_json parameters_to_json text_eq
  subscription_members s = (
    simp (laws.contains_set, laws.in_null),
    simp (laws.at_set),
    simp (laws.at_set),
    simp (at_set_if library laws, laws.at_set),
    simp (contains_set_if library laws, laws.contains_set, laws.in_null, if_same library laws),
    simp (contains_set_if library laws, laws.contains_set, laws.in_null, if_same library laws),
    simp (contains_set_if library laws, laws.contains_set, laws.in_null, if_same library laws),
  )

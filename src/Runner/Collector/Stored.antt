-- ===== src/Runner/Collector/Stored.antt =====
-- What the collector finds in Setec after it has stored something.
use remote_juggler.Prelude.{◌≡◌, ◌≢◌, refl, ap, false, none, [], ◌∷◌, ◌==◌}
use remote_juggler.Text.{Text, lit, text_eq, same}
use remote_juggler.Result.{Result, ok, err}
use remote_juggler.Runner.Campaign.{Campaign, CampaignResult}
use remote_juggler.Runner.Dispatcher.Http.{Net}
use remote_juggler.Runner.Collector.{
  Codecs, latest_key, history_key, kill_key, setec_put, setec_get, store_result, after_latest,
  findings_of, get_previous_findings, previous_in, check_kill_switch, switch_in, clear_kill_switch,
  error_of,
}

abbrev ResultIsOk : Result Text → Type 0
ResultIsOk o = (resp : Text) × (o ≡ ok resp)

module _ {W : Type 0} (n : Net W) (j : Codecs) (url : Text) where
  -- The gateway answers a read of this key with this text.
  abbrev pub Holds : Text → Text → W → Type 0
  Holds key text w =
      (resp : Text) × ((setec_get n j url key w).0 ≡ ok resp)
      × (j.unmarshal_content resp ≡ ok (text ∷ []))

  -- The gateway can be reached and stores: a write that succeeds is what a read then gets, and a write
  -- to a key leaves the others as they are, whether it succeeds or not.
  pub record IsStore : Type 0 where
    pub put_get :
        (key text : Text) (w : W)
        → ResultIsOk (setec_put n j url key text w).0
        → Holds key text (setec_put n j url key text w).1
    pub put_other :
        (key other text text' : Text) (w : W)
        → other ≢ key
        → Holds key text w
        → Holds key text (setec_put n j url other text' w).1

  stored :
      (c : Campaign) (r : CampaignResult) (text : Text) (o : Result Text × W) {w' : W}
      → after_latest n j url c r text o ≡ (none, w')
      → ResultIsOk o.0 × ((setec_put n j url (history_key c r) text o.1).1 ≡ w')
  stored c r text (err e, w) h = absurd (cc)
  stored c r text (ok resp, w) h = ((resp, refl), ap (λ o. o.1) h)

  -- Over a gateway that stores, and with an encoding of the result that can be decoded, the previous
  -- findings of a campaign whose result has been stored without an error are those of this result, if
  -- the key of the run is not the one of the latest result.
  pub get_previous_findings-store_result :
      (c : Campaign) (r : CampaignResult) (w w' : W) {text : Text}
      → IsStore
      → j.marshal_result r ≡ ok text
      → j.unmarshal_result text ≡ ok r
      → history_key c r ≢ latest_key c
      → store_result n j url c r w ≡ (none, w')
      → (get_previous_findings n j url c w').0 ≡ r.findings
  unfolding store_result get_previous_findings
  get_previous_findings-store_result c r w w' {text} store marshalled back apart done =
      let o = setec_put n j url (latest_key c) text w in
      let (fine, same) = stored c r text o (rw (marshalled, store_result) at done) in
      let held : Holds (latest_key c) text w' = rw same at (
        store.put_other (latest_key c) (history_key c r) text text o.1 apart
          (store.put_get (latest_key c) text w fine)) in
      let (resp, got, parsed) = held in rw (got, previous_in, parsed, findings_of, back)

  -- If the gateway holds a text for the kill switch, the check says that the switch is on exactly
  -- when the text is `true`.
  pub check_kill_switch-Holds :
      (text : Text) (w : W)
      → Holds kill_key text w
      → (check_kill_switch n j url w).0 ≡ ok (text == lit "true")
  unfolding check_kill_switch
  check_kill_switch-Holds text w (resp, got, parsed) = rw (got, switch_in, parsed)

  cleared :
      (o : Result Text × W) {w' : W} → error_of n j url o ≡ (none, w') → ResultIsOk o.0 × (o.1 ≡ w')
  cleared (err e, w) h = absurd (cc)
  cleared (ok resp, w) h = ((resp, refl), ap (λ o. o.1) h)

  -- Over a gateway that stores, once the kill switch has been cleared without an error, the check says
  -- that it is off.
  pub check_kill_switch-clear_kill_switch :
      (w w' : W)
      → IsStore
      → clear_kill_switch n j url w ≡ (none, w')
      → (check_kill_switch n j url w').0 ≡ ok false
  unfolding clear_kill_switch same
  check_kill_switch-clear_kill_switch w w' store done =
      let o = setec_put n j url kill_key (lit "false") w in
      let (fine, same) = cleared o done in
      let held : Holds kill_key (lit "false") w' =
        rw same at (store.put_get kill_key (lit "false") w fine) in
      check_kill_switch-Holds (lit "false") w' held

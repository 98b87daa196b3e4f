-- ===== src/Ui/Script/Overlap.antt =====
-- src/ui.rs: two submits of the form that overlap. The handler gives way at its `await`, and the button is
-- not disabled.
use act_web_server_rs.Common.{String}
use act_web_server_rs.Ui.Script.{submit_begin}
use act_web_server_rs.Ui.Browser.{Browser, Dom}

module _ {W : Type 0} (b : Browser W) where
  -- the page after a submit, the writing of another token, and a second submit
  abbrev pub begun_twice : Dom → String → Dom
  begun_twice dom token = (submit_begin b (record (submit_begin b dom).0 { token = token })).0

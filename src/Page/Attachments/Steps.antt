-- ===== src/Page/Attachments/Steps.antt =====
-- What may happen to the attachment and the object URLs of web/src/main.ts, one step after another.
use e2eanon.Prelude.{ℕ, ◌≡◌, List, [], ◌++◌, Bool, true, Option, none, some, Text}
use e2eanon.Crypto.Base64url.{Bytes}
use e2eanon.Crypto.Primitives.{Primitives}
use e2eanon.Client.State.{Session, Client}
use e2eanon.Client.Connecting.{finish_connect}
use e2eanon.Client.Upload.{File}
use e2eanon.Page.Element.{nil}
use e2eanon.Page.Attachments.{
  Tab, urls_of, clear_staged, teardown_tab, take_staged, on_file_selected, finish_incoming_tab,
  finish_upload_tab,
}

-- A page that was just loaded.
abbrev pub loaded : Client → Tab
loaded cl = record {
  client = cl;
  staged = none;
  preview = nil;
  preview_hidden = true;
  live = [];
  created = 0;
}

module _ (p : Primitives) (random : ℕ → ℕ → Bytes) (object_url : ℕ → Text) where
  -- Each step comes with the URLs whose session it overwrites: `connect` puts a new session in the place
  -- of whatever session there is, which is one where another `connect` was faster. Whatever else happens
  -- to the client leaves the URLs of its session as they are.
  pub data Step (tab : Tab) : List Text → Tab → Type 0 where
    selected : (choice : Option File) → Step tab [] (on_file_selected object_url choice tab)
    removed : Step tab [] (clear_staged tab)
    submitted : Step tab [] (take_staged tab).1
    received : (transfer : Text) → Step tab [] (finish_incoming_tab object_url transfer tab)
    uploaded :
        (transfer : Text) (file : File) (s : Session)
        → tab.client.session ≡ some s
        → Step tab [] (finish_upload_tab object_url p random transfer file tab)
    torn_down : (return_to_lobby : Bool) → Step tab [] (teardown_tab return_to_lobby tab)
    connected :
        Step tab
          (urls_of tab.client.session)
          (record tab { client = finish_connect p random tab.client })
    other :
        (cl : Client)
        → urls_of cl.session ≡ urls_of tab.client.session
        → Step tab [] (record tab { client = cl })

  -- The tabs that may be reached from a page just loaded, with the URLs lost on the way.
  pub data Reach : List Text → Tab → Type 0 where
    start : (cl : Client) → cl.session ≡ none → Reach [] (loaded cl)
    next :
        {lost new : List Text} {tab tab' : Tab}
        → Reach lost tab
        → Step tab new tab'
        → Reach (new ++ lost) tab'

-- ===== src/Handlers/Tests.antt =====
-- The index of candidates on two handlers, one of them found by its signature.
use causalmesh.Prelude.{true, none, some, List, [], ◌∷◌, contains, nat_eq, ◌≡◌, refl}
use causalmesh.Prelude.Text.{Text, text, is_ascii_alphanumeric}
use causalmesh.Subject.{bare as last_segment, bare_names_match, same_letters}
use causalmesh.Handlers.{Handler, build, candidates, is_candidate, signature_contains_bare}
use causalmesh.Handlers.Complete.{candidates-is_candidate}

abbrev other : Handler
other = record { name = text "UserController.list"; pascal = text "List"; signature = none }

abbrev by_signature : Handler
by_signature = record {
  name = text "UserController.find";
  pascal = text "Find";
  signature = some (text "fn get_user(&self)");
}

abbrev handlers : List Handler
handlers = other ∷ by_signature ∷ []

abbrev rpc : Text
rpc = text "pkg.Users.GetUser"

passes : is_candidate is_ascii_alphanumeric rpc (last_segment rpc) by_signature ≡ true
unfolding bare_names_match same_letters signature_contains_bare
passes = refl

only_second :
    candidates is_ascii_alphanumeric (build is_ascii_alphanumeric handlers) rpc (last_segment rpc)
    ≡ 1 ∷ []
unfolding build candidates
only_second = refl

candidates-is_candidate_example :
    contains 1 (
      candidates is_ascii_alphanumeric
        (build is_ascii_alphanumeric handlers)
        rpc
        (last_segment rpc))
    ≡ true
candidates-is_candidate_example =
    candidates-is_candidate is_ascii_alphanumeric refl handlers 1 by_signature rpc refl passes

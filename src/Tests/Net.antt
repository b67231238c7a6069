-- ===== src/Tests/Net.antt =====
-- The client at a server that knows one session token.
use discodrive_apps.Base.{
  ◌≤◌, ◌≡◌, refl, true, false, Option, none, some, List, [], ◌∷◌, ◌++◌, Str, drop, map, All, codes,
  length, str_eq, ◌==◌, if◌then◌else◌,
}
use discodrive_apps.Base.Exec.{ok}
use discodrive_apps.Go.Json
use discodrive_apps.Go.Json.{member, empty, same_name, read_members, lower_all}
use discodrive_apps.Protocol.{
  Http, Request, Reply, Reader, Session, Client, new_client, do_plain, do_json, attempts, token,
  token_or_exchange, send, again_after_401, set_jwt, take_token, expect,
}
use discodrive_apps.Protocol.Files
use discodrive_apps.Protocol.Uploads
use discodrive_apps.Protocol.Sent.{recording}
use discodrive_apps.Protocol.Requests.{Allowed, header_of}
use discodrive_apps.Protocol.Calls.{Operation, Operation-Allowed}
use discodrive_apps.Protocol.Renewal.{Serves, renewed}

abbrev session_token : Str
session_token = codes "t"

-- The answer for the value of the Authorization header: without one it is the exchange of the token.
abbrev answer : Option Str → Reply
answer none = record { status = 200; body = session_token; broken = none }
answer (some v) = record {
  status = if str_eq v (codes "Bearer t") then 200 else 401;
  body = session_token;
  broken = none;
}

abbrev net : Http
net = record {
  State = Unit {0};
  send = λ q h. (ok (answer (header_of (codes "Authorization") q.header)), h);
  reads = λ q h. 1;
  leaves = λ q h rest. rest;
  text = λ d. codes "{}";
  parse = λ body. some (Json.obj (member (codes "token") (Json.str body) empty));
}

abbrev client : Client
client = new_client (codes "https://x") (codes "device")

abbrev source : Reader
source = record {
  bytes = codes "abc";
  offset = 1;
  seekable = true;
  faults = [];
  others = λ rest. rest;
}

-- A session whose cached token has run out.
abbrev stale : Session (recording net)
stale = record { http = (tt, []); jwt = codes "old"; reader = source }

Operation-Allowed_example :
    (new : List Request) × ((Files.changes (recording net) client 0 10 stale).1.http.1 ≡ new ++ [])
    × (length new ≤ 4)
    × All (Allowed net client tt (codes "old")) new
Operation-Allowed_example =
    Operation-Allowed net client (Files.changes (recording net) client 0 10)
      (Operation.changes 0 10) stale

server : Serves net client
unfolding header_of str_eq read_members lower_all
server = record {
  Accepts = λ tok h. tok ≡ session_token;
  reply = λ q h. answer (header_of (codes "Authorization") q.header);
  answers = λ q h. refl;
  given = λ h. session_token;
  exchanges = λ h. refl;
  decodes = λ h. refl;
  accepts = λ h. refl;
  serves = λ q h tok e a. rw (e, a) refl;
}

abbrev expired : Session net
expired = record { http = tt; jwt = codes "old"; reader = source }

renewed_example :
    ((p : Reply) × ((do_plain net client (codes "GET") (codes "/me") expired).0 ≡ ok p)
      × ((p.status == 401) ≡ false))
    × ((p : Reply) × ((do_json net client (codes "GET") (codes "/me") Json.null expired).0 ≡ ok p)
        × ((p.status == 401) ≡ false))
renewed_example = renewed net client server (codes "GET") (codes "/me") Json.null expired

-- A transport that still takes a byte after Do has returned: the second attempt lacks it.
abbrev greedy : Http
greedy = record net { leaves = λ q h rest. drop 1 rest }

abbrev refused : Session (recording greedy)
refused = record { http = (tt, []); jwt = codes "old"; reader = source }

byte_lost :
    map
      (λ q. q.body)
      (Files.push_file (recording greedy) client (codes "a") none none refused).1.http.1
    ≡ codes "c" ∷ codes "{}" ∷ codes "bc" ∷ []
unfolding Files.push_file Files.replayable_body Files.measure Files.reader_works Files.at_offset
    attempts token token_or_exchange Files.build_push Files.new_body send again_after_401 header_of
    str_eq set_jwt take_token expect lower_all read_members Files.pushed_of Files.read_all
    Files.buffer
byte_lost = refl

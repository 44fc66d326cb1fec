-- ===== src/Proxy/Tests.antt =====
-- Runs of the models of Lab31, and the theorems at concrete inputs.
mod Pages
mod Turns
use os_posix.Prelude.{
  ℕ, zero, suc, ◌+◌, ◌%◌, ◌^◌, ◌≤◌, ◌<◌, ◌≡◌, ◌≢◌, refl, Bool, true, false, Option, none, some,
  List, [], ◌∷◌, ◌++◌, arith, length, get_elem?, take, drop,
}
use mathlib.Core.List.{Perm}
use os_posix.Proxy.Memory.{Bytes, Run, done, fault, ◌>>=◌}
use os_posix.Proxy.Request.{space, slash, get_url_from_data, get_host_from_url, cut_host}
use os_posix.Proxy.Request.Parse.{scheme, url_of_request, partial_request_overrun, host_of_url}
use os_posix.Proxy.Request.Rewrite.{full_request, path_request, cut_host_lem}
use os_posix.Proxy.Response.{cr, lf, get_index_of_body, cut_body}
use os_posix.Proxy.Response.Body.{body_offset, index_of_body, short_buffer_overrun, cut_body_lem}
use os_posix.Proxy.SocketQueue.{
  returns, stuck, get_socket_from_queue, put_socket_in_queue, accept_socket, fetch_socket,
}
use os_posix.Proxy.SocketQueue.Locks.{queue_of, put_socket_lem, get_socket_lem}

abbrev get_method : Bytes
get_method = b'G' ∷ b'E' ∷ b'T' ∷ []

abbrev host_name : Bytes
host_name = b'h' ∷ b'o' ∷ []

abbrev url_text : Bytes
url_text = scheme ++ host_name ++ slash ∷ []

url_of_request_test :
    get_url_from_data (get_method ++ space ∷ (url_text ++ space ∷ [])) ≡ done (some url_text)
url_of_request_test = url_of_request get_method url_text [] refl refl

partial_request_overrun_test :
    (get_url_from_data get_method ≡ fault)
    × (get_url_from_data (get_method ++ space ∷ url_text) ≡ fault)
partial_request_overrun_test = partial_request_overrun get_method url_text refl refl

host_of_url_test :
    (get_host_from_url (scheme ++ host_name ++ slash ∷ host_name) ≡ done host_name)
    × (get_host_from_url (scheme ++ host_name) ≡ fault)
host_of_url_test = host_of_url host_name host_name refl

cut_host_lem_example :
    (out : Bytes × ℕ) × (cut_host
        (full_request get_method host_name (space ∷ get_method))
        (length (full_request get_method host_name (space ∷ get_method)))
      ≡ done out)
    × (take out.1 out.0 ≡ path_request get_method (space ∷ get_method))
    × (out.1 ≡ length (path_request get_method (space ∷ get_method)))
cut_host_lem_example = cut_host_lem get_method host_name (space ∷ get_method) refl refl

abbrev answer : Bytes
answer = b'O' ∷ b'K' ∷ cr ∷ lf ∷ cr ∷ lf ∷ b'x' ∷ []

index_of_body_example : get_index_of_body answer (length answer) ≡ done (body_offset answer)
index_of_body_example = index_of_body answer (omega arith) (omega arith)

short_buffer_overrun_test : get_index_of_body (cr ∷ lf ∷ []) (length (cr ∷ lf ∷ [])) ≡ fault
short_buffer_overrun_test = short_buffer_overrun (cr ∷ lf ∷ []) (omega arith)

cut_body_lem_test : cut_body answer 7 (6 + 1) ≡ take 6 answer ++ 0 ∷ []
cut_body_lem_test = cut_body_lem answer 7 6 (omega arith)

put_socket_lem_test :
    (put_socket_in_queue 5 (queue_of (4 ∷ []) false) ≡ returns tt (queue_of (4 ∷ 5 ∷ []) false))
    × (accept_socket 5 (queue_of (4 ∷ []) false) ≡ stuck)
put_socket_lem_test = put_socket_lem 5 (4 ∷ [])

get_socket_lem_test :
    (get_socket_from_queue (queue_of [] false) ≡ returns none (queue_of [] true))
    × (get_socket_from_queue (queue_of (4 ∷ 5 ∷ []) false) ≡ stuck)
    × (fetch_socket true (queue_of (4 ∷ 5 ∷ []) false) ≡ stuck)
    × (fetch_socket false (queue_of (4 ∷ 5 ∷ []) false) ≡ returns none (queue_of (4 ∷ 5 ∷ []) true))
    × (fetch_socket true (queue_of [] false) ≡ returns none (queue_of [] true))
get_socket_lem_test = get_socket_lem 4 (5 ∷ [])

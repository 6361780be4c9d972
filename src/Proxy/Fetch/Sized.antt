-- ===== src/Proxy/Fetch/Sized.antt =====
-- A printed response with the length of its body is an answer that the reading loop takes whole.
use multi_threaded_proxy_ser.Base.{
  ℕ, ◌+◌, ◌-◌, ◌≤◌, [], length, take, leb, All, Bytes, refl, ap, ◌∙◌, arith,
}
use multi_threaded_proxy_ser.Message.{IsLine, Fields, IsField, print_message, head_length}
use multi_threaded_proxy_ser.Message.Cut.{find_header_end-take, take-body}
use multi_threaded_proxy_ser.Message.Framing.{find_header_end-print_message, length-print_message}
use multi_threaded_proxy_ser.Proxy.Fetch.Delivery.{IsAnswer}
use multi_threaded_proxy_ser.Proxy.State.{Options}
use multi_threaded_proxy_ser.Request.{find_header_end}
use multi_threaded_proxy_ser.Response.{parse_response_headers}
use multi_threaded_proxy_ser.Response.Fields.{stored, status_line, status_line-IsLine}
use multi_threaded_proxy_ser.Response.RoundTrip.{
  IsSized, sized_response, parse-sized, response_complete-sized,
}

pub sized-IsAnswer :
    (opts : Options) (status : ℕ) (reason : Bytes) (fs : Fields) (body : Bytes)
    → 100 ≤ status
    → status ≤ 599
    → IsLine reason
    → All IsField fs
    → IsSized fs (length body)
    → head_length (status_line status reason) fs ≤ opts.max_header_bytes
    → head_length (status_line status reason) fs + length body ≤ opts.max_body_bytes
    → IsAnswer opts
        (print_message (status_line status reason) fs body)
        (head_length (status_line status reason) fs)
        (sized_response
          (head_length (status_line status reason) fs)
          status
          (stored [] fs)
          (length body))
sized-IsAnswer opts status reason fs body low high r h sized head_fits fits =
    let start = status_line status reason in
    let line = status_line-IsLine status reason r in
    let head = head_length start fs in
    let msg = print_message start fs body in
    let size = length-print_message start fs body in
    record {
      early = find_header_end-take start fs body line h;
      found = λ k le.
          ap find_header_end (take-body start fs body k le)
          ∙ find_header_end-print_message start fs (take (k - head) body) line h;
      reads = λ k le.
          ap parse_response_headers (take-body start fs body k le)
          ∙ parse-sized status reason fs (length body) (take (k - head) body) low high r h sized;
      frames = λ buf.
          response_complete-sized buf head status (stored [] fs) (length body)
          ∙ ap (λ n. leb n (length buf)) (omega (arith, size));
      valid = refl;
      framed = refl;
      nonempty = omega arith;
      inside = omega (arith, size);
      head_fits = head_fits;
      fits = omega (arith, size, fits);
    }

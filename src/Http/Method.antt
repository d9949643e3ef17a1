-- ===== src/Http/Method.antt =====
-- headers/http/Request.hpp and sources/http/Request.cpp: the methods.
pub mod Laws
use fion.Prelude.{if◌then◌else◌}
use fion.Prelude.Results.{Exception, Result, ok, err}
use fion.Text.{Bytes, codes, equal}

pub data Method : Type 0 where
  get head post put delete connect options trace patch : Method

unfoldable pub string_to_method : Bytes → Result Method
string_to_method raw =
    if equal raw (codes "GET")
    then ok Method.get
    else if equal raw (codes "HEAD")
    then ok Method.head
    else if equal raw (codes "POST")
    then ok Method.post
    else if equal raw (codes "PUT")
    then ok Method.put
    else if equal raw (codes "DELETE")
    then ok Method.delete
    else if equal raw (codes "CONNECT")
    then ok Method.connect
    else if equal raw (codes "OPTIONS")
    then ok Method.options
    else if equal raw (codes "TRACE")
    then ok Method.trace
    else if equal raw (codes "PATCH")
    then ok Method.patch
    else err (Exception.invalid_argument (codes "Invalid HTTP Method"))

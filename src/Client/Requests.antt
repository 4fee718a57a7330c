-- ===== src/Client/Requests.antt =====
-- The heads of the requests that the client's calls in higplat/higplat.cpp send.
use g_plat.Prelude.{ℕ, List, [], ◌∷◌, take}
use g_plat.Dispatch.{
  msg_id, id_readq, id_writeq, id_clearq, id_readb, id_writeb, id_readbstring, id_writebstring,
  id_subscribe, id_clearb, id_readboardinfo, id_createitem, id_deleteitem, id_postwait,
  id_createqueue, id_readtype, id_writebplc, id_writebstringplc, id_registerplcserver,
}
use g_plat.Message.{Head, zero_head}
use g_plat.Subscribe.{event_default, event_post_delay}

-- strncpy into a field of 40 bytes, of which the last becomes zero.
abbrev pub copied : List ℕ → List ℕ
copied name = take 39 name

-- "BOARD"
abbrev pub board_name : List ℕ
board_name = 66 ∷ 79 ∷ 65 ∷ 82 ∷ 68 ∷ []

abbrev pub readq_request : List ℕ → ℕ → Head
readq_request qname actsize = record zero_head {
  id = msg_id id_readq;
  datasize = actsize;
  qname = copied qname;
}

abbrev pub writeq_request : List ℕ → ℕ → Head
writeq_request qname actsize = record zero_head {
  id = msg_id id_writeq;
  datasize = actsize;
  bodysize = actsize;
  qname = copied qname;
}

abbrev pub clearq_request : List ℕ → Head
clearq_request qname = record zero_head { id = msg_id id_clearq; qname = copied qname }

abbrev pub readb_request : List ℕ → ℕ → Head
readb_request tagname actsize = record zero_head {
  id = msg_id id_readb;
  datasize = actsize;
  qname = board_name;
  itemname = copied tagname;
}

abbrev pub writeb_request : List ℕ → ℕ → ℕ → Head
writeb_request tagname actsize postornot = record zero_head {
  id = msg_id id_writeb;
  datasize = actsize;
  bodysize = actsize;
  start = postornot;
  qname = board_name;
  itemname = copied tagname;
}

abbrev pub readb_string_request : List ℕ → ℕ → Head
readb_string_request tagname buffersize = record zero_head {
  id = msg_id id_readbstring;
  datasize = buffersize;
  qname = board_name;
  itemname = copied tagname;
}

abbrev pub writeb_string_request : List ℕ → ℕ → ℕ → Head
writeb_string_request tagname strlength postornot = record zero_head {
  id = msg_id id_writebstring;
  datasize = strlength;
  bodysize = strlength;
  start = postornot;
  qname = board_name;
  itemname = copied tagname;
}

abbrev pub subscribe_request : List ℕ → Head
subscribe_request tagname = record zero_head {
  id = msg_id id_subscribe;
  eventid = event_default;
  itemname = copied tagname;
  qname = copied tagname;
}

abbrev pub subscribedelaypost_request : List ℕ → List ℕ → ℕ → Head
subscribedelaypost_request tagname eventname delaytime = record zero_head {
  id = msg_id id_subscribe;
  eventid = event_post_delay;
  eventarg = delaytime;
  itemname = copied tagname;
  qname = copied eventname;
}

abbrev pub clearb_request : Head
clearb_request = record zero_head { id = msg_id id_clearb; qname = board_name }

abbrev pub readboardinfo_request : ℕ → Head
readboardinfo_request infosize = record zero_head {
  id = msg_id id_readboardinfo;
  datasize = infosize;
  qname = board_name;
}

abbrev pub createtag_request : List ℕ → ℕ → ℕ → Head
createtag_request tagname tagsize typesize = record zero_head {
  id = msg_id id_createitem;
  recsize = tagsize;
  bodysize = typesize;
  qname = board_name;
  itemname = copied tagname;
}

abbrev pub deletetag_request : List ℕ → Head
deletetag_request tagname = record zero_head {
  id = msg_id id_deleteitem;
  qname = board_name;
  itemname = copied tagname;
}

abbrev pub waitpostdata_request : ℕ → Head
waitpostdata_request timeout = record zero_head { id = msg_id id_postwait; timeout = timeout }

abbrev pub createqueue_request : List ℕ → ℕ → ℕ → ℕ → ℕ → Head
createqueue_request queuename recordsize recordnum operatemode typesize = record zero_head {
  id = msg_id id_createqueue;
  recsize = recordsize;
  count = recordnum;
  start = operatemode;
  bodysize = typesize;
  qname = copied queuename;
}

abbrev pub writeb_plc_request : List ℕ → ℕ → Head
writeb_plc_request tagname actsize = record zero_head {
  id = msg_id id_writebplc;
  datasize = actsize;
  bodysize = actsize;
  qname = board_name;
  itemname = copied tagname;
}

abbrev pub writeb_string_plc_request : List ℕ → ℕ → Head
writeb_string_plc_request tagname strlength = record zero_head {
  id = msg_id id_writebstringplc;
  datasize = strlength;
  bodysize = strlength;
  qname = board_name;
  itemname = copied tagname;
}

abbrev pub registertag_request : List ℕ → Head
registertag_request tagname = record zero_head {
  id = msg_id id_registerplcserver;
  itemname = copied tagname;
  qname = copied tagname;
}

-- With a tag it is the board's, whatever `qbdname` is; a null pointer is the empty name.
abbrev pub asked_file : List ℕ → List ℕ → List ℕ
asked_file qbdname [] = copied qbdname
asked_file qbdname (_ ∷ _) = board_name

abbrev pub readtype_request : List ℕ → List ℕ → ℕ → Head
readtype_request qbdname tagname buffsize = record zero_head {
  id = msg_id id_readtype;
  datasize = buffsize;
  qname = asked_file qbdname tagname;
  itemname = copied tagname;
}

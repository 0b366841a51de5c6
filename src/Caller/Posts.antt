-- ===== src/Caller/Posts.antt =====
-- mt_call_si_static.c, rmr_si.c: the posts of the receivers' semaphore and the messages in the ring.
use ric_plt_lib_rmr.Ring.{Ring}
use ric_plt_lib_rmr.Ring.Queue
